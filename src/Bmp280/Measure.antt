-- ===== src/Bmp280/Measure.antt =====
-- bmp280.c: the measurements. The polling loop runs on fuel.
use esp32_s3_i2c_mqtt_machba.Base.{⊤, ℕ, zero, suc, ◌==◌, Bool, not, if◌then◌else◌, leb}
use esp32_s3_i2c_mqtt_machba.Base.Int.{ℤ, pos, negsuc}
use esp32_s3_i2c_mqtt_machba.Base.Word.{sub64}
use esp32_s3_i2c_mqtt_machba.Esp.{Os, esp_err_timeout}
use esp32_s3_i2c_mqtt_machba.Float.{Fp}
use esp32_s3_i2c_mqtt_machba.I2c.{Bus}
use esp32_s3_i2c_mqtt_machba.I2c.Action.{
  out_of_fuel, pure, raise, ◌>>=◌, ◌>>◌, esp_arg_check, esp_error_check, gets, delay_ms,
}
use esp32_s3_i2c_mqtt_machba.I2c.Transfer.{i2c_master_bus_read_byte24, i2c_master_bus_read_byte48}
use esp32_s3_i2c_mqtt_machba.Bmp280.Registers.{measuring}
use esp32_s3_i2c_mqtt_machba.Bmp280.Compensate.{
  raw20, i2c_bmp280_compensate_temperature, i2c_bmp280_compensate_pressure,
}
use esp32_s3_i2c_mqtt_machba.Bmp280.Device.{
  Bmp, reg_pressure, reg_temp, i2c_bmp280_get_status_register,
}

module _ {W : Type 0} (os : Os W) (bus : Bus W) where
  -- `i2c_bmp280_get_data_status`
  unfoldable pub i2c_bmp280_get_data_status : Bmp os bus Bool
  i2c_bmp280_get_data_status = do
    esp_arg_check
    i2c_bmp280_get_status_register os bus
    h ← esp_arg_check
    pure (not (measuring h.status_reg == 1))

  -- What a round of the loop does after the time is read: the timeout is tested first.
  abbrev pub poll_again : ℕ → Bool → ℕ → Bmp os bus ⊤ → Bmp os bus ⊤
  poll_again start_time ready now rest =
      if leb 250000 (sub64 now start_time)
      then raise esp_err_timeout
      else (if ready then pure tt else rest)

  -- The polling loop, from its start time on: it ends without an error when the data is ready.
  unfoldable pub poll : ℕ → ℕ → Bmp os bus ⊤
  poll zero start_time s = (out_of_fuel, s)
  poll (suc fuel) start_time s =
      (i2c_bmp280_get_data_status >>= λ ready.
      delay_ms os bus 1
      >> (gets bus.esp_timer_get_time >>= λ now.
          poll_again start_time ready now (poll fuel start_time)))
        s

  -- `i2c_bmp280_get_fixed_measurements`
  unfoldable pub i2c_bmp280_get_fixed_measurements : ℕ → Bmp os bus (ℤ × ℕ)
  i2c_bmp280_get_fixed_measurements fuel = do
    h ← esp_arg_check
    start_time ← gets bus.esp_timer_get_time
    poll fuel start_time
    bytes ← i2c_master_bus_read_byte48 bus h.i2c_dev_handle reg_pressure
    let cal = h.dev_cal_factors
    let t = i2c_bmp280_compensate_temperature cal (pos (raw20 bytes 3))
    let p = i2c_bmp280_compensate_pressure cal (pos (raw20 bytes 0)) t.1
    delay_ms os bus 5
    pure (t.0, p)

  -- `i2c_bmp280_get_fixed_temperature`
  unfoldable pub i2c_bmp280_get_fixed_temperature : ℕ → Bmp os bus ℤ
  i2c_bmp280_get_fixed_temperature fuel = do
    h ← esp_arg_check
    start_time ← gets bus.esp_timer_get_time
    poll fuel start_time
    bytes ← i2c_master_bus_read_byte24 bus h.i2c_dev_handle reg_temp
    let t = i2c_bmp280_compensate_temperature h.dev_cal_factors (pos (raw20 bytes 0))
    delay_ms os bus 5
    pure t.0

  module _ {F D : Type 0} (fp : Fp F D) where
    -- A conversion of an integer to `float`.
    abbrev to_float : ℤ → F
    to_float (pos n) = fp.narrow (fp.of_nat n)
    to_float (negsuc n) = fp.narrow (fp.neg (fp.of_nat (suc n)))

    -- `i2c_bmp280_get_measurements`
    unfoldable pub i2c_bmp280_get_measurements : ℕ → Bmp os bus (F × F)
    i2c_bmp280_get_measurements fuel = do
      esp_arg_check
      m ← esp_error_check (i2c_bmp280_get_fixed_measurements fuel)
      pure (
        fp.f_div (to_float m.0) (to_float (pos 100)),
        fp.f_div (to_float (pos m.1)) (to_float (pos 256)),
      )

    -- `i2c_bmp280_get_temperature`
    unfoldable pub i2c_bmp280_get_temperature : ℕ → Bmp os bus F
    i2c_bmp280_get_temperature fuel = do
      esp_arg_check
      t ← esp_error_check (i2c_bmp280_get_fixed_temperature fuel)
      pure (fp.f_div (to_float t) (to_float (pos 100)))

    -- `i2c_bmp280_get_pressure`
    unfoldable pub i2c_bmp280_get_pressure : ℕ → Bmp os bus F
    i2c_bmp280_get_pressure fuel = do
      esp_arg_check
      m ← esp_error_check (i2c_bmp280_get_fixed_measurements fuel)
      pure (fp.f_div (to_float (pos m.1)) (to_float (pos 256)))
