-- ===== src/Ahtxx/Device.antt =====
-- ahtxx.c: the device handle, its set-up, its status register and its reset.
use esp32_s3_i2c_mqtt_machba.Base.{⊤, ℕ, ◌/◌, ◌%◌, ◌==◌, Bool, [], ◌∷◌, get_or, if◌then◌else◌}
use esp32_s3_i2c_mqtt_machba.Esp.{Os}
use esp32_s3_i2c_mqtt_machba.I2c.{Bus}
use esp32_s3_i2c_mqtt_machba.I2c.Action.{
  Action, pure, ◌>>=◌, ◌>>◌, esp_arg_check, modify, status, status_with, delay_ms,
}
use esp32_s3_i2c_mqtt_machba.I2c.Transfer.{i2c_master_bus_write_cmd}

-- `i2c_ahtxx_types_t`
pub data AhtType : Type 0 where
  aht10 aht2x : AhtType

-- `struct i2c_ahtxx_t`
pub record Ahtxx : Type 0 where
  pub i2c_dev_handle : ℕ
  pub aht_type : AhtType
  pub status_reg : ℕ

-- The fields of `i2c_ahtxx_status_register_t`.
abbrev pub is_calibrated : ℕ → Bool
is_calibrated reg = reg / 8 % 2 == 1

abbrev pub is_busy : ℕ → Bool
is_busy reg = reg / 128 % 2 == 1

-- `I2C_AHTXX_CMD_AHT10_INIT` and `I2C_AHTXX_CMD_AHT2X_INIT`
abbrev pub init_command : AhtType → ℕ
init_command aht10 = 0xe1
init_command aht2x = 0xbe

module _ {W : Type 0} (os : Os W) (bus : Bus W) where
  abbrev pub Aht : Type 0 → Type 0
  Aht A = Action Ahtxx W A

  -- `i2c_ahtxx_setup`
  unfoldable pub i2c_ahtxx_setup : Aht ⊤
  i2c_ahtxx_setup = do
    h ← esp_arg_check
    status (bus.i2c_master_transmit h.i2c_dev_handle (init_command h.aht_type ∷ 0x08 ∷ 0x00 ∷ []))
    delay_ms os bus 15

  -- `i2c_ahtxx_get_status_register`
  unfoldable pub i2c_ahtxx_get_status_register : Aht ⊤
  i2c_ahtxx_get_status_register = do
    h ← esp_arg_check
    status (bus.i2c_master_transmit h.i2c_dev_handle (0x71 ∷ []))
    delay_ms os bus 10
    rx ← status_with (bus.i2c_master_receive h.i2c_dev_handle 1)
    modify (λ h'. record h' { status_reg = get_or rx 0 0 })
    delay_ms os bus 5

  -- What `i2c_ahtxx_reset` does if the status register is not the default word.
  unfoldable pub set_up_unless_ready : Bool → Aht ⊤
  set_up_unless_ready ready =
      if ready then pure tt else (i2c_ahtxx_setup >> i2c_ahtxx_get_status_register)

  -- `i2c_ahtxx_reset`
  unfoldable pub i2c_ahtxx_reset : Aht ⊤
  i2c_ahtxx_reset = do
    h ← esp_arg_check
    i2c_master_bus_write_cmd bus h.i2c_dev_handle 0xba
    delay_ms os bus 25
    i2c_ahtxx_get_status_register
    read ← esp_arg_check
    set_up_unless_ready (read.status_reg == 0x18)
    delay_ms os bus 5

  -- `i2c_ahtxx_get_busy_status`
  unfoldable pub i2c_ahtxx_get_busy_status : Aht Bool
  i2c_ahtxx_get_busy_status = do
    esp_arg_check
    i2c_ahtxx_get_status_register
    h ← esp_arg_check
    pure (is_busy h.status_reg)

  -- `i2c_ahtxx_get_calibration_status`
  unfoldable pub i2c_ahtxx_get_calibration_status : Aht Bool
  i2c_ahtxx_get_calibration_status = do
    esp_arg_check
    i2c_ahtxx_get_status_register
    h ← esp_arg_check
    pure (is_calibrated h.status_reg)

  -- `i2c_ahtxx_get_status`
  unfoldable pub i2c_ahtxx_get_status : Aht (Bool × Bool)
  i2c_ahtxx_get_status = do
    esp_arg_check
    i2c_ahtxx_get_status_register
    h ← esp_arg_check
    pure (is_busy h.status_reg, is_calibrated h.status_reg)

  -- `i2c_ahtxx_rm`
  unfoldable pub i2c_ahtxx_rm : Aht ⊤
  i2c_ahtxx_rm = do h ← esp_arg_check; status (bus.i2c_master_bus_rm_device h.i2c_dev_handle)
