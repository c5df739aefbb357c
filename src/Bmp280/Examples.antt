-- ===== src/Bmp280/Examples.antt =====
-- Concrete runs of the driver, and the theorems on it at concrete inputs.
use esp32_s3_i2c_mqtt_machba.Base.{◌+◌, ◌%◌, ◌≡◌, ◌≤◌, refl, true, false, none, some, arith}
use esp32_s3_i2c_mqtt_machba.Base.Int.{pos, ◌+ℤ◌, ◌-ℤ◌, ◌*ℤ◌, shr_ℤ, div_ℤ, mod_ℤ}
use esp32_s3_i2c_mqtt_machba.Float.Whole.{whole}
use esp32_s3_i2c_mqtt_machba.I2c.Action.{ret}
use esp32_s3_i2c_mqtt_machba.I2c.Ends.{ReturnsOrAborts, runs_out}
use esp32_s3_i2c_mqtt_machba.Bmp280.Registers.{
  with_power_mode, pressure_oversampling, temperature_oversampling,
}
use esp32_s3_i2c_mqtt_machba.Bmp280.Compensate.{
  fine_temperature, i2c_bmp280_compensate_temperature, pressure_divisor,
  i2c_bmp280_compensate_pressure,
}
use esp32_s3_i2c_mqtt_machba.Bmp280.Modes.{
  power_mode_normal, pressure_oversampling_4x, temperature_oversampling_2x, iir_filter_16,
  standby_time_250ms,
}
use esp32_s3_i2c_mqtt_machba.Bmp280.Configure.{configure, configure-Reads}
use esp32_s3_i2c_mqtt_machba.Bmp280.Exact.{
  abs, exact_fine, exact_temperature, IsNear, compensate_temperature-exact,
}
use esp32_s3_i2c_mqtt_machba.Bmp280.Device.{Bmp280}
use esp32_s3_i2c_mqtt_machba.Bmp280.Settings.{i2c_bmp280_set_power_mode}
use esp32_s3_i2c_mqtt_machba.Bmp280.Measure.{
  i2c_bmp280_get_fixed_measurements, i2c_bmp280_get_pressure,
}
use esp32_s3_i2c_mqtt_machba.Bmp280.Init.{i2c_bmp280_init}
use esp32_s3_i2c_mqtt_machba.Bmp280.RoundTrip.{
  device, HoldsControl, ControlReads, ConfigReads, set_power_mode-get,
}
use esp32_s3_i2c_mqtt_machba.Bmp280.Poll.{get_fixed_measurements-ends, get_pressure-ReturnsOrAborts}
use esp32_s3_i2c_mqtt_machba.Bmp280.Leak.{blocks_left, live-i2c_bmp280_init}
use esp32_s3_i2c_mqtt_machba.Bmp280.Board.{
  data_sheet, board_os, board_bus, board, handle, sensor_os, board-Sensor, board_time, timed_bus,
  board-TimerLaws, board-HeapLaws, board-BusHeapLaws, config, wrong_board,
}

data_sheet_temperature :
    i2c_bmp280_compensate_temperature data_sheet (pos 519888) ≡ (pos 2508, pos 128422)
unfolding i2c_bmp280_compensate_temperature fine_temperature ◌+ℤ◌ ◌-ℤ◌ ◌*ℤ◌ shr_ℤ mod_ℤ
data_sheet_temperature = refl

data_sheet_pressure : i2c_bmp280_compensate_pressure data_sheet (pos 415148) (pos 128422) ≡ 25767233
unfolding i2c_bmp280_compensate_pressure pressure_divisor ◌+ℤ◌ ◌-ℤ◌ ◌*ℤ◌ shr_ℤ div_ℤ mod_ℤ
data_sheet_pressure = refl

-- A single measurement on a sleeping sensor: the mode is set, and it is sleep again when it is read.
set_power_mode-get_example :
    let r = i2c_bmp280_set_power_mode sensor_os board_bus 1 (device handle board) in
    HoldsControl sensor_os board_bus handle (with_power_mode 1 39) r
    × ControlReads sensor_os board_bus
        (1 % 4)
        (pressure_oversampling 39)
        (temperature_oversampling 39)
        r.1
set_power_mode-get_example =
    set_power_mode-get sensor_os board_bus (λ b. b.registers) handle board-Sensor board refl 1
      (omega arith)

get_fixed_measurements-ends_example :
    runs_out (i2c_bmp280_get_fixed_measurements board_os timed_bus 250000 (device handle board)).0
    ≡ false
get_fixed_measurements-ends_example =
    get_fixed_measurements-ends board_os timed_bus board_time board-TimerLaws 250000
      (device handle board) (omega arith) (omega arith)

get_pressure-ReturnsOrAborts_example :
    ReturnsOrAborts
      (i2c_bmp280_get_pressure board_os timed_bus whole 250000 (device handle board)).0
get_pressure-ReturnsOrAborts_example =
    get_pressure-ReturnsOrAborts board_os timed_bus board_time board-TimerLaws whole 250000 handle
      board (omega arith) (omega arith)

live-i2c_bmp280_init_example :
    let r = i2c_bmp280_init board_os board_bus true (some config) none wrong_board in
    r.2.blocks ≡ 3 + blocks_left r.0
live-i2c_bmp280_init_example =
    live-i2c_bmp280_init board_os board_bus (λ b. b.blocks) board-BusHeapLaws board-HeapLaws config
      none wrong_board refl refl refl

data_sheet-IsNear : IsNear data_sheet 519888 27504
data_sheet-IsNear = record {
  of_20_bits = omega arith;
  of_16_bits = omega arith;
  first = refl;
  second = omega arith;
  third = omega arith;
  above = omega arith;
  below = omega arith;
}

compensate_temperature-exact_example :
    (i2c_bmp280_compensate_temperature data_sheet (pos 519888)
      ≡ (exact_temperature data_sheet (pos 519888), exact_fine data_sheet (pos 519888)))
    × (abs (exact_fine data_sheet (pos 519888)) ≤ 1179627)
compensate_temperature-exact_example =
    compensate_temperature-exact data_sheet 519888 27504 data_sheet-IsNear

abbrev sleeping : Bmp280
sleeping = record handle { ctrl_meas_reg = 36 }

configure-Reads_example :
    let r =
      configure sensor_os board_bus power_mode_normal pressure_oversampling_4x
        temperature_oversampling_2x iir_filter_16 standby_time_250ms
        (device sleeping board) in
    (r.0 ≡ ret tt)
    × ControlReads sensor_os board_bus 3 3 2 r.1
    × ConfigReads sensor_os board_bus 4 3 r.1
configure-Reads_example =
    configure-Reads sensor_os board_bus (λ b. b.registers) sleeping board power_mode_normal
      pressure_oversampling_4x temperature_oversampling_2x iir_filter_16 standby_time_250ms
      board-Sensor refl refl (omega arith) (omega arith)
