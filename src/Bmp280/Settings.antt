-- ===== src/Bmp280/Settings.antt =====
-- bmp280.c: the settings of the sensor. Every one is a field of a register: it is read from the
-- device, and written into a copy of the handle's register that goes to the device.
use esp32_s3_i2c_mqtt_machba.Base.{⊤, ℕ}
use esp32_s3_i2c_mqtt_machba.Esp.{Os}
use esp32_s3_i2c_mqtt_machba.I2c.{Bus}
use esp32_s3_i2c_mqtt_machba.I2c.Action.{pure, ◌>>=◌, ◌>>◌, esp_arg_check}
use esp32_s3_i2c_mqtt_machba.Bmp280.Registers.{
  power_mode, pressure_oversampling, temperature_oversampling, iir_filter, standby_time,
  with_power_mode, with_pressure_oversampling, with_temperature_oversampling, with_iir_filter,
  with_standby_time,
}
use esp32_s3_i2c_mqtt_machba.Bmp280.Device.{
  Bmp, i2c_bmp280_get_control_measurement_register, i2c_bmp280_get_configuration_register,
  i2c_bmp280_set_control_measurement_register, i2c_bmp280_set_configuration_register,
}

module _ {W : Type 0} (os : Os W) (bus : Bus W) where
  -- A field of the control measurement register, as the device has it.
  abbrev get_control : (ℕ → ℕ) → Bmp os bus ℕ
  get_control field = do
    esp_arg_check
    i2c_bmp280_get_control_measurement_register os bus
    h ← esp_arg_check
    pure (field h.ctrl_meas_reg)

  abbrev pub set_control : (ℕ → ℕ) → Bmp os bus ⊤
  set_control update = do
    h ← esp_arg_check
    i2c_bmp280_set_control_measurement_register os bus (update h.ctrl_meas_reg)

  -- A field of the configuration register, as the device has it.
  abbrev get_config : (ℕ → ℕ) → Bmp os bus ℕ
  get_config field = do
    esp_arg_check
    i2c_bmp280_get_configuration_register os bus
    h ← esp_arg_check
    pure (field h.config_reg)

  abbrev pub set_config : (ℕ → ℕ) → Bmp os bus ⊤
  set_config update = do
    h ← esp_arg_check
    i2c_bmp280_set_configuration_register os bus (update h.config_reg)

  -- `i2c_bmp280_get_power_mode`
  unfoldable pub i2c_bmp280_get_power_mode : Bmp os bus ℕ
  i2c_bmp280_get_power_mode = get_control power_mode

  -- `i2c_bmp280_set_power_mode`
  unfoldable pub i2c_bmp280_set_power_mode : ℕ → Bmp os bus ⊤
  i2c_bmp280_set_power_mode v = set_control (with_power_mode v)

  -- `i2c_bmp280_get_pressure_oversampling`
  unfoldable pub i2c_bmp280_get_pressure_oversampling : Bmp os bus ℕ
  i2c_bmp280_get_pressure_oversampling = get_control pressure_oversampling

  -- `i2c_bmp280_set_pressure_oversampling`
  unfoldable pub i2c_bmp280_set_pressure_oversampling : ℕ → Bmp os bus ⊤
  i2c_bmp280_set_pressure_oversampling v = set_control (with_pressure_oversampling v)

  -- `i2c_bmp280_get_temperature_oversampling`
  unfoldable pub i2c_bmp280_get_temperature_oversampling : Bmp os bus ℕ
  i2c_bmp280_get_temperature_oversampling = get_control temperature_oversampling

  -- `i2c_bmp280_set_temperature_oversampling`
  unfoldable pub i2c_bmp280_set_temperature_oversampling : ℕ → Bmp os bus ⊤
  i2c_bmp280_set_temperature_oversampling v = set_control (with_temperature_oversampling v)

  -- `i2c_bmp280_get_standby_time`
  unfoldable pub i2c_bmp280_get_standby_time : Bmp os bus ℕ
  i2c_bmp280_get_standby_time = get_config standby_time

  -- `i2c_bmp280_set_standby_time`
  unfoldable pub i2c_bmp280_set_standby_time : ℕ → Bmp os bus ⊤
  i2c_bmp280_set_standby_time v = set_config (with_standby_time v)

  -- `i2c_bmp280_get_iir_filter`
  unfoldable pub i2c_bmp280_get_iir_filter : Bmp os bus ℕ
  i2c_bmp280_get_iir_filter = get_config iir_filter

  -- `i2c_bmp280_set_iir_filter`
  unfoldable pub i2c_bmp280_set_iir_filter : ℕ → Bmp os bus ⊤
  i2c_bmp280_set_iir_filter v = set_config (with_iir_filter v)
