-- ===== src/Bmp280/Device.antt =====
-- bmp280.c: the device handle, and the reads and writes of its registers.
use esp32_s3_i2c_mqtt_machba.Base.{⊤, ℕ}
use esp32_s3_i2c_mqtt_machba.Esp.{Os}
use esp32_s3_i2c_mqtt_machba.I2c.{Bus}
use esp32_s3_i2c_mqtt_machba.I2c.Action.{Action, ◌>>=◌, ◌>>◌, esp_arg_check, modify, delay_ms}
use esp32_s3_i2c_mqtt_machba.I2c.Transfer.{i2c_master_bus_read_uint8, i2c_master_bus_write_uint8}
use esp32_s3_i2c_mqtt_machba.Bmp280.Registers.{with_reserved}
use esp32_s3_i2c_mqtt_machba.Bmp280.Compensate.{CalFactors}

-- `struct i2c_bmp280_t`
pub record Bmp280 : Type 0 where
  pub i2c_dev_handle : ℕ
  pub dev_cal_factors : CalFactors
  pub dev_type : ℕ
  pub status_reg : ℕ
  pub ctrl_meas_reg : ℕ
  pub config_reg : ℕ

-- The addresses of the registers.
abbrev pub reg_config : ℕ
reg_config = 245

abbrev pub reg_ctrl : ℕ
reg_ctrl = 244

abbrev pub reg_status : ℕ
reg_status = 243

abbrev pub reg_reset : ℕ
reg_reset = 224

abbrev pub reg_id : ℕ
reg_id = 208

abbrev pub reg_pressure : ℕ
reg_pressure = 247

abbrev pub reg_temp : ℕ
reg_temp = 250

module _ {W : Type 0} (os : Os W) (bus : Bus W) where
  abbrev pub Bmp : Type 0 → Type 0
  Bmp A = Action Bmp280 W A

  -- The reads of a register into the handle: a read, what it stores, and a delay.
  abbrev pub read_register : ℕ → (ℕ → Bmp280 → Bmp280) → Bmp ⊤
  read_register reg_addr store = do
    h ← esp_arg_check
    value ← i2c_master_bus_read_uint8 bus h.i2c_dev_handle reg_addr
    modify (store value)
    delay_ms os bus 5

  -- `i2c_bmp280_get_chip_id_register`
  unfoldable pub i2c_bmp280_get_chip_id_register : Bmp ⊤
  i2c_bmp280_get_chip_id_register = read_register reg_id (λ v h. record h { dev_type = v })

  -- `i2c_bmp280_get_status_register`
  unfoldable pub i2c_bmp280_get_status_register : Bmp ⊤
  i2c_bmp280_get_status_register = read_register reg_status (λ v h. record h { status_reg = v })

  -- `i2c_bmp280_get_control_measurement_register`
  unfoldable pub i2c_bmp280_get_control_measurement_register : Bmp ⊤
  i2c_bmp280_get_control_measurement_register =
      read_register reg_ctrl (λ v h. record h { ctrl_meas_reg = v })

  -- `i2c_bmp280_get_configuration_register`
  unfoldable pub i2c_bmp280_get_configuration_register : Bmp ⊤
  i2c_bmp280_get_configuration_register =
      read_register reg_config (λ v h. record h { config_reg = v })

  -- `i2c_bmp280_set_control_measurement_register`
  unfoldable pub i2c_bmp280_set_control_measurement_register : ℕ → Bmp ⊤
  unfolding i2c_bmp280_get_control_measurement_register
  i2c_bmp280_set_control_measurement_register ctrl_meas_reg = do
    h ← esp_arg_check
    i2c_master_bus_write_uint8 bus h.i2c_dev_handle reg_ctrl ctrl_meas_reg
    delay_ms os bus 5
    i2c_bmp280_get_control_measurement_register

  -- `i2c_bmp280_set_configuration_register`: the reserved bit is cleared.
  unfoldable pub i2c_bmp280_set_configuration_register : ℕ → Bmp ⊤
  unfolding i2c_bmp280_get_configuration_register
  i2c_bmp280_set_configuration_register config_reg = do
    h ← esp_arg_check
    i2c_master_bus_write_uint8 bus h.i2c_dev_handle reg_config (with_reserved 0 config_reg)
    delay_ms os bus 5
    i2c_bmp280_get_configuration_register
