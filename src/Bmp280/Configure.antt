-- ===== src/Bmp280/Configure.antt =====
-- All the settings of the sensor, written one after another and read back.
use esp32_s3_i2c_mqtt_machba.Base.{⊤, ℕ, ◌≡◌, ◌<◌, ◌∙◌, refl, ap, arith}
use esp32_s3_i2c_mqtt_machba.Esp.{Os}
use esp32_s3_i2c_mqtt_machba.I2c.{Bus}
use esp32_s3_i2c_mqtt_machba.I2c.Action.{ret, ◌>>=◌, ◌>>◌, esp_arg_check, pure, Action}
use esp32_s3_i2c_mqtt_machba.Bmp280.Registers.{
  power_mode, pressure_oversampling, temperature_oversampling, with_power_mode,
  with_pressure_oversampling, with_temperature_oversampling, with_reserved, iir_filter,
  standby_time, with_iir_filter, with_standby_time,
}
use esp32_s3_i2c_mqtt_machba.Bmp280.Device.{Bmp280, reg_ctrl, reg_config}
use esp32_s3_i2c_mqtt_machba.Bmp280.Settings.{
  set_control, set_config, i2c_bmp280_set_power_mode, i2c_bmp280_set_pressure_oversampling,
  i2c_bmp280_set_temperature_oversampling, i2c_bmp280_set_standby_time, i2c_bmp280_set_iir_filter,
}
use esp32_s3_i2c_mqtt_machba.Bmp280.Mirror.{
  Settles, Settles-trans, Settles-asleep, Sensor, set_control_measurement_register-mirror,
  set_configuration_register-mirror,
}
use esp32_s3_i2c_mqtt_machba.Bmp280.RoundTrip.{
  device, ControlReads, ConfigReads, control_reads, config_reads,
}
use esp32_s3_i2c_mqtt_machba.Bmp280.Modes.{
  PowerMode, power_mode_value, power_mode_value-fits, PressureOversampling,
  pressure_oversampling_value, pressure_oversampling_value-fits, TemperatureOversampling,
  temperature_oversampling_value, temperature_oversampling_value-fits, IirFilter, iir_filter_value,
  iir_filter_value-fits, StandbyTime, standby_time_value, standby_time_value-fits,
}

-- The handle after a setting in either register.
abbrev with_control : (ℕ → ℕ) → Bmp280 → Bmp280
with_control update h = record h { ctrl_meas_reg = update h.ctrl_meas_reg }

abbrev with_config : (ℕ → ℕ) → Bmp280 → Bmp280
with_config update h = record h { config_reg = with_reserved 0 (update h.config_reg) }

module _ {W : Type 0} (os : Os W) (bus : Bus W) where
  -- The five setters, each with a value of its enumeration, the power mode last.
  abbrev pub configure :
      PowerMode
      → PressureOversampling
      → TemperatureOversampling
      → IirFilter
      → StandbyTime
      → Action Bmp280 W ⊤
  configure mode pressure temperature filter standby =
      i2c_bmp280_set_pressure_oversampling os bus (pressure_oversampling_value pressure)
      >> i2c_bmp280_set_temperature_oversampling os bus (temperature_oversampling_value temperature)
      >> i2c_bmp280_set_iir_filter os bus (iir_filter_value filter)
      >> i2c_bmp280_set_standby_time os bus (standby_time_value standby)
      >> i2c_bmp280_set_power_mode os bus (power_mode_value mode)

module _ {W : Type 0} (os : Os W) (bus : Bus W) (reg : W → ℕ → ℕ) where
  -- A setting in the control measurement register that leaves a sleeping sensor asleep.
  set_control-asleep :
      (update : ℕ → ℕ) (h : Bmp280) (w : W)
      → Sensor os bus h.i2c_dev_handle reg
      → power_mode (reg w reg_ctrl) ≡ 0
      → update h.ctrl_meas_reg < 256
      → power_mode (update h.ctrl_meas_reg) ≡ 0
      → (w' : W) × (set_control os bus update (device h w)
          ≡ (ret tt, device (with_control update h) w'))
        × (power_mode (reg w' reg_ctrl) ≡ 0)
  unfolding ◌>>=◌ esp_arg_check pure
  set_control-asleep update h w laws asleep byte sleeps =
      let v = update h.ctrl_meas_reg in
      let (c, w', ran, stored, after, _) =
        set_control_measurement_register-mirror os bus reg h laws v w byte asleep in
      let same = Settles-asleep v c sleeps stored in
      let last = Settles-asleep v _ sleeps (Settles-trans v c _ stored after) in
      (
        w',
        ran ∙ ap (λ r. (ret tt, device (record h { ctrl_meas_reg = r }) w')) same,
        ap power_mode last ∙ sleeps,
      )

  set_config-asleep :
      (update : ℕ → ℕ) (h : Bmp280) (w : W)
      → Sensor os bus h.i2c_dev_handle reg
      → power_mode (reg w reg_ctrl) ≡ 0
      → update h.config_reg < 256
      → (w' : W) × (set_config os bus update (device h w)
          ≡ (ret tt, device (with_config update h) w'))
        × (power_mode (reg w' reg_ctrl) ≡ 0)
        × (reg w' reg_config ≡ with_reserved 0 (update h.config_reg))
  unfolding ◌>>=◌ esp_arg_check pure
  set_config-asleep update h w laws asleep byte =
      let (w', ran, stored, slept) =
        set_configuration_register-mirror os bus reg h laws (update h.config_reg) w byte asleep in
      (w', ran, ap power_mode slept ∙ asleep, stored)

  -- The power mode of a sleeping sensor, at last.
  set_control-wakes :
      (update : ℕ → ℕ) (h : Bmp280) (w : W)
      → Sensor os bus h.i2c_dev_handle reg
      → power_mode (reg w reg_ctrl) ≡ 0
      → update h.ctrl_meas_reg < 256
      → (c : ℕ) × (w' : W) × (set_control os bus update (device h w)
          ≡ (ret tt, device (record h { ctrl_meas_reg = c }) w'))
        × Settles (update h.ctrl_meas_reg) (reg w' reg_ctrl)
        × (reg w' reg_config ≡ reg w reg_config)
  unfolding ◌>>=◌ esp_arg_check pure
  set_control-wakes update h w laws asleep byte =
      let v = update h.ctrl_meas_reg in
      let (c, w', ran, stored, after, kept) =
        set_control_measurement_register-mirror os bus reg h laws v w byte asleep in
      (c, w', ran, Settles-trans v c _ stored after, kept)

  ControlReads-fields :
      (h : Bmp280) (v : ℕ) (w : W) (mode pressure temperature : ℕ)
      → Sensor os bus h.i2c_dev_handle reg
      → Settles v (reg w reg_ctrl)
      → power_mode v ≡ mode
      → pressure_oversampling v ≡ pressure
      → temperature_oversampling v ≡ temperature
      → ControlReads os bus mode pressure temperature (device h w)
  ControlReads-fields h v w mode pressure temperature laws settled e₁ e₂ e₃ =
      rw (← e₁, ← e₂, ← e₃) (control_reads os bus reg h laws v w settled)

  ConfigReads-fields :
      (h : Bmp280) (v : ℕ) (w w₀ : W) (filter standby : ℕ)
      → Sensor os bus h.i2c_dev_handle reg
      → reg w reg_config ≡ reg w₀ reg_config
      → reg w₀ reg_config ≡ v
      → iir_filter v ≡ filter
      → standby_time v ≡ standby
      → ConfigReads os bus filter standby (device h w)
  ConfigReads-fields h v w w₀ filter standby laws kept held e₁ e₂ =
      rw (← e₁, ← e₂) (config_reads os bus reg h laws v w (kept ∙ held))

  -- The five settings of a sleeping sensor, whose handle holds bytes and the sleep mode, are written
  -- one after another with values of their enumerations, the power mode last: every write succeeds,
  -- and afterwards each of the five getters reads back the value that its own setter was given; only
  -- of a forced mode it may be sleep that is read, once the measurement is over.
  pub configure-Reads :
      (h : Bmp280) (w : W) (mode : PowerMode) (pressure : PressureOversampling)
      (temperature : TemperatureOversampling) (filter : IirFilter) (standby : StandbyTime)
      → Sensor os bus h.i2c_dev_handle reg
      → power_mode (reg w reg_ctrl) ≡ 0
      → power_mode h.ctrl_meas_reg ≡ 0
      → h.ctrl_meas_reg < 256
      → h.config_reg < 256
      → let r = configure os bus mode pressure temperature filter standby (device h w) in
        (r.0 ≡ ret tt)
        × ControlReads os bus
            (power_mode_value mode)
            (pressure_oversampling_value pressure)
            (temperature_oversampling_value temperature)
            r.1
        × ConfigReads os bus (iir_filter_value filter) (standby_time_value standby) r.1
  unfolding i2c_bmp280_set_power_mode i2c_bmp280_set_pressure_oversampling
      i2c_bmp280_set_temperature_oversampling i2c_bmp280_set_iir_filter i2c_bmp280_set_standby_time
      with_power_mode with_pressure_oversampling with_temperature_oversampling with_iir_filter
      with_standby_time with_reserved ◌>>=◌
  configure-Reads h w mode pressure temperature filter standby laws asleep sleeps byte byte' =
      let f₁ = with_pressure_oversampling (pressure_oversampling_value pressure) in
      let f₂ = with_temperature_oversampling (temperature_oversampling_value temperature) in
      let g₃ = with_iir_filter (iir_filter_value filter) in
      let g₄ = with_standby_time (standby_time_value standby) in
      let f₅ = with_power_mode (power_mode_value mode) in
      let h₁ = with_control f₁ h in
      let h₂ = with_control f₂ h₁ in
      let h₃ = with_config g₃ h₂ in
      let h₄ = with_config g₄ h₃ in
      let v = f₅ h₂.ctrl_meas_reg in
      let d = h₄.config_reg in
      let (w₁, ran₁, asleep₁) =
        set_control-asleep f₁ h w laws asleep (omega (arith, byte)) (omega (arith, sleeps)) in
      let (w₂, ran₂, asleep₂) =
        set_control-asleep f₂ h₁ w₁ laws asleep₁ (omega (arith, byte)) (omega (arith, sleeps)) in
      let (w₃, ran₃, asleep₃, _) = set_config-asleep g₃ h₂ w₂ laws asleep₂ (omega (arith, byte')) in
      let (w₄, ran₄, asleep₄, config) =
        set_config-asleep g₄ h₃ w₃ laws asleep₃ (omega (arith, byte')) in
      let (c, w₅, ran₅, control, kept) =
        set_control-wakes f₅ h₄ w₄ laws asleep₄ (omega (arith, byte)) in
      let h₅ : Bmp280 = record h₄ { ctrl_meas_reg = c } in
      let e₁ : power_mode v ≡ power_mode_value mode = omega (arith, power_mode_value-fits mode) in
      let e₂ : pressure_oversampling v ≡ pressure_oversampling_value pressure =
        omega (arith, pressure_oversampling_value-fits pressure) in
      let e₃ : temperature_oversampling v ≡ temperature_oversampling_value temperature =
        omega (arith, temperature_oversampling_value-fits temperature) in
      let e₄ : iir_filter d ≡ iir_filter_value filter =
        omega (arith, iir_filter_value-fits filter) in
      let e₅ : standby_time d ≡ standby_time_value standby =
        omega (arith, standby_time_value-fits standby) in
      let reads =
        ControlReads-fields h₅ v w₅ (power_mode_value mode) (pressure_oversampling_value pressure)
          (temperature_oversampling_value temperature) laws control e₁ e₂ e₃ in
      let others =
        ConfigReads-fields h₅ d w₅ w₄ (iir_filter_value filter) (standby_time_value standby) laws
          kept config e₄ e₅ in
      rw (ran₁, ran₂, ran₃, ran₄, ran₅) (refl, reads, others)
