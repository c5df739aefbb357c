-- ===== src/Bmp280/Init.antt =====
-- bmp280.c: initialization, reset and removal of the device.
use esp32_s3_i2c_mqtt_machba.Base.{
  ⊤, ℕ, ◌*◌, ◌/◌, ◌==◌, Bool, true, false, ◌||◌, Option, none, some, if◌then◌else◌,
}
use esp32_s3_i2c_mqtt_machba.Base.Int.{pos}
use esp32_s3_i2c_mqtt_machba.Base.Word.{signed16}
use esp32_s3_i2c_mqtt_machba.Esp.{
  EspErr, Os, is_ok, esp_err_no_mem, esp_err_invalid_arg, esp_err_invalid_version,
}
use esp32_s3_i2c_mqtt_machba.I2c.{Bus}
use esp32_s3_i2c_mqtt_machba.I2c.Action.{
  Outcome, ret, fail, aborted, out_of_fuel, Dev, pure, raise, ◌>>=◌, ◌>>◌, esp_arg_check,
  esp_error_check, modify, status, delay_ms,
}
use esp32_s3_i2c_mqtt_machba.I2c.Transfer.{i2c_master_bus_read_uint16, i2c_master_bus_write_uint8}
use esp32_s3_i2c_mqtt_machba.Bmp280.Registers.{
  with_power_mode, with_pressure_oversampling, with_temperature_oversampling, with_iir_filter,
  with_standby_time,
}
use esp32_s3_i2c_mqtt_machba.Bmp280.Compensate.{CalFactors}
use esp32_s3_i2c_mqtt_machba.Bmp280.Device.{
  Bmp, Bmp280, reg_reset, i2c_bmp280_get_chip_id_register,
  i2c_bmp280_get_control_measurement_register, i2c_bmp280_get_configuration_register,
  i2c_bmp280_set_control_measurement_register, i2c_bmp280_set_configuration_register,
}

-- `i2c_bmp280_config_t`
pub record Config : Type 0 where
  pub device_address : ℕ
  pub scl_speed_hz : ℕ
  pub config_power_mode : ℕ
  pub config_iir_filter : ℕ
  pub config_pressure_oversampling : ℕ
  pub config_temperature_oversampling : ℕ
  pub config_standby_time : ℕ

-- The initial power mode: the two forced modes start as sleep.
abbrev pub initial_power_mode : ℕ → ℕ
initial_power_mode m = if m == 1 || m == 2 then 0 else m

-- The registers that an initialization writes.
abbrev pub initial_config : Config → ℕ → ℕ
initial_config c reg =
    with_iir_filter c.config_iir_filter (with_standby_time c.config_standby_time reg)

abbrev pub initial_control : Config → ℕ → ℕ
initial_control c reg = with_pressure_oversampling c.config_pressure_oversampling (
    with_temperature_oversampling c.config_temperature_oversampling
      (with_power_mode (initial_power_mode c.config_power_mode) reg))

-- Memory from `calloc`.
abbrev zero_cal : CalFactors
zero_cal = record {
  dig_t1 = pos 0;
  dig_t2 = pos 0;
  dig_t3 = pos 0;
  dig_p1 = pos 0;
  dig_p2 = pos 0;
  dig_p3 = pos 0;
  dig_p4 = pos 0;
  dig_p5 = pos 0;
  dig_p6 = pos 0;
  dig_p7 = pos 0;
  dig_p8 = pos 0;
  dig_p9 = pos 0;
}

abbrev pub new_handle : ℕ → Bmp280
new_handle dev = record {
  i2c_dev_handle = dev;
  dev_cal_factors = zero_cal;
  dev_type = 0;
  status_reg = 0;
  ctrl_meas_reg = 0;
  config_reg = 0;
}

module _ {W : Type 0} (os : Os W) (bus : Bus W) where
  -- A word of calibration data, stored as it is read; an error of the bus aborts the program.
  abbrev read_factor : ℕ → ℕ → (ℕ → CalFactors → CalFactors) → Bmp os bus ⊤
  read_factor dev reg_addr store = do
    value ← esp_error_check (i2c_master_bus_read_uint16 bus dev reg_addr)
    modify (λ h. record h { dev_cal_factors = store value h.dev_cal_factors })

  -- `i2c_bmp280_get_cal_factors`
  unfoldable pub i2c_bmp280_get_cal_factors : Bmp os bus ⊤
  i2c_bmp280_get_cal_factors = do
    h ← esp_arg_check
    let dev = h.i2c_dev_handle
    read_factor dev 136 (λ v c. record c { dig_t1 = pos v })
    read_factor dev 138 (λ v c. record c { dig_t2 = signed16 v })
    read_factor dev 140 (λ v c. record c { dig_t3 = signed16 v })
    read_factor dev 142 (λ v c. record c { dig_p1 = pos v })
    read_factor dev 144 (λ v c. record c { dig_p2 = signed16 v })
    read_factor dev 146 (λ v c. record c { dig_p3 = signed16 v })
    read_factor dev 148 (λ v c. record c { dig_p4 = signed16 v })
    read_factor dev 150 (λ v c. record c { dig_p5 = signed16 v })
    read_factor dev 152 (λ v c. record c { dig_p6 = signed16 v })
    read_factor dev 154 (λ v c. record c { dig_p7 = signed16 v })
    read_factor dev 156 (λ v c. record c { dig_p8 = signed16 v })
    read_factor dev 158 (λ v c. record c { dig_p9 = signed16 v })
    delay_ms os bus 5

  -- `i2c_bmp280_get_registers`
  unfoldable pub i2c_bmp280_get_registers : Bmp os bus ⊤
  i2c_bmp280_get_registers = do
    esp_arg_check
    i2c_bmp280_get_cal_factors
    i2c_bmp280_get_control_measurement_register os bus
    i2c_bmp280_get_configuration_register os bus

  -- `i2c_bmp280_reset`
  unfoldable pub i2c_bmp280_reset : Bmp os bus ⊤
  i2c_bmp280_reset = do
    h ← esp_arg_check
    i2c_master_bus_write_uint8 bus h.i2c_dev_handle reg_reset 182
    delay_ms os bus 25
    i2c_bmp280_get_registers

  -- `i2c_bmp280_rm`
  unfoldable pub i2c_bmp280_rm : Bmp os bus ⊤
  i2c_bmp280_rm = do h ← esp_arg_check; status (bus.i2c_master_bus_rm_device h.i2c_dev_handle)

  -- What `i2c_bmp280_init` does with the new handle once the device is on the bus: a chip other
  -- than a BMP280 is refused.
  unfoldable pub set_up : Config → Bmp os bus ⊤
  set_up c = do
    delay_ms os bus 5
    i2c_bmp280_get_chip_id_register os bus
    typed ← esp_arg_check
    if typed.dev_type == 88 then pure tt else raise esp_err_invalid_version
    i2c_bmp280_reset
    h ← esp_arg_check
    i2c_bmp280_set_configuration_register os bus (initial_config c h.config_reg)
    i2c_bmp280_set_control_measurement_register os bus (initial_control c h.ctrl_meas_reg)

  -- What an initialization returns, and what it leaves of the handle variable and of the world.
  abbrev Result : Type 0
  Result = Outcome ⊤ × Option Bmp280 × W

  -- The end of an initialization: the handle is stored; or the device is removed from the bus and
  -- the handle freed; an abort leaves everything.
  unfoldable pub init_finish : ℕ → Option Bmp280 → Outcome ⊤ × Dev Bmp280 W → Result
  init_finish dev out (ret t, s) =
      (ret t, s.handle, os.v_task_delay (25 * bus.config_tick_rate_hz / 1000) s.world)
  init_finish dev out (fail e, s) =
      (fail e, out, os.free (bus.i2c_master_bus_rm_device dev s.world).1)
  init_finish dev out (aborted e, s) = (aborted e, out, s.world)
  init_finish dev out (out_of_fuel, s) = (out_of_fuel, out, s.world)

  -- The device on the bus; without one the handle is freed.
  unfoldable pub init_device : Config → Option Bmp280 → EspErr × ℕ × W → Result
  init_device c out (e, dev, w) =
      if is_ok e
      then init_finish dev out (set_up c (record { handle = some (new_handle dev); world = w }))
      else (fail e, out, os.free w)

  -- The memory of the calibration factors.
  unfoldable pub init_factors : Config → Option Bmp280 → Bool × W → Result
  init_factors c out (true, w) =
      init_device c out (bus.i2c_master_bus_add_device c.device_address c.scl_speed_hz w)
  init_factors c out (false, w) = (fail esp_err_no_mem, out, os.free w)

  -- The memory of the handle.
  unfoldable pub init_handle : Config → Option Bmp280 → Bool × W → Result
  init_handle c out (true, w) = init_factors c out (os.calloc w)
  init_handle c out (false, w) = (fail esp_err_no_mem, out, w)

  -- The device answers at its address.
  unfoldable pub init_probed : Config → Option Bmp280 → EspErr × W → Result
  init_probed c out (e, w) = if is_ok e then init_handle c out (os.calloc w) else (fail e, out, w)

  -- `i2c_bmp280_init`, given whether the bus handle is not null, the configuration or none, and what
  -- the handle variable holds.
  unfoldable pub i2c_bmp280_init : Bool → Option Config → Option Bmp280 → W → Result
  i2c_bmp280_init true (some c) out w = init_probed c out (
      bus.i2c_master_probe c.device_address
        (os.v_task_delay (25 * bus.config_tick_rate_hz / 1000) w))
  i2c_bmp280_init true none out w = (fail esp_err_invalid_arg, out, w)
  i2c_bmp280_init false config out w = (fail esp_err_invalid_arg, out, w)
