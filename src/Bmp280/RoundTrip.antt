-- ===== src/Bmp280/RoundTrip.antt =====
-- A setting that is written to a sleeping sensor is read back, and the other settings in the same
-- register stay as they were.
use esp32_s3_i2c_mqtt_machba.Base.{⊤, ℕ, ◌%◌, ◌<◌, ◌≡◌, ◌⊎◌, inl, inr, refl, ap, some, arith}
use esp32_s3_i2c_mqtt_machba.Esp.{Os}
use esp32_s3_i2c_mqtt_machba.I2c.{Bus}
use esp32_s3_i2c_mqtt_machba.I2c.Action.{
  Outcome, ret, ◌>>=◌, esp_arg_check, modify, effect, status, status_with, pure, Dev,
}
use esp32_s3_i2c_mqtt_machba.Bmp280.Registers.{
  power_mode, pressure_oversampling, temperature_oversampling, with_power_mode,
  with_pressure_oversampling, with_temperature_oversampling, with_reserved, iir_filter,
  standby_time, with_iir_filter, with_standby_time,
}
use esp32_s3_i2c_mqtt_machba.Bmp280.Device.{Bmp280, reg_ctrl, reg_config}
use esp32_s3_i2c_mqtt_machba.Bmp280.Settings.{
  set_control, set_config, i2c_bmp280_get_power_mode, i2c_bmp280_set_power_mode,
  i2c_bmp280_get_pressure_oversampling, i2c_bmp280_set_pressure_oversampling,
  i2c_bmp280_get_temperature_oversampling, i2c_bmp280_set_temperature_oversampling,
  i2c_bmp280_get_standby_time, i2c_bmp280_set_standby_time, i2c_bmp280_get_iir_filter,
  i2c_bmp280_set_iir_filter,
}
use esp32_s3_i2c_mqtt_machba.Bmp280.Mirror.{
  IsForced, Settles, Settles-trans, Sensor, get_control_lem, get_config_lem,
  set_control_measurement_register-mirror, set_configuration_register-mirror,
}

-- The device with a handle.
abbrev pub device : {W : Type 0} → Bmp280 → W → Dev Bmp280 W
device h w = record { handle = some h; world = w }

-- What may be read of a power mode that has been set: the mode, or sleep once a single measurement
-- is over.
abbrev pub ModeAfter : ℕ → ℕ → Type 0
ModeAfter mode m = (m ≡ mode) ⊎ (IsForced mode × (m ≡ 0))

Settles-ModeAfter : (v c : ℕ) → Settles v c → ModeAfter (power_mode v) (power_mode c)
Settles-ModeAfter v c (inl e) = inl (ap power_mode e)
Settles-ModeAfter v c (inr (forced, e)) = inr (forced, omega (arith, e))

Settles-others :
    (v c : ℕ)
    → Settles v c
    → (pressure_oversampling c ≡ pressure_oversampling v)
      × (temperature_oversampling c ≡ temperature_oversampling v)
Settles-others v c (inl e) = (ap pressure_oversampling e, ap temperature_oversampling e)
Settles-others v c (inr (forced, e)) = (omega (arith, e), omega (arith, e))

module _ {W : Type 0} (os : Os W) (bus : Bus W) where
  -- What the three getters of the control measurement register report.
  abbrev pub ControlReads : ℕ → ℕ → ℕ → Dev Bmp280 W → Type 0
  ControlReads mode pressure temperature s =
      ((m : ℕ) × ((i2c_bmp280_get_power_mode os bus s).0 ≡ ret m) × ModeAfter mode m)
      × ((i2c_bmp280_get_pressure_oversampling os bus s).0 ≡ ret pressure)
      × ((i2c_bmp280_get_temperature_oversampling os bus s).0 ≡ ret temperature)

  -- What the two getters of the configuration register report.
  abbrev pub ConfigReads : ℕ → ℕ → Dev Bmp280 W → Type 0
  ConfigReads filter standby s =
      ((i2c_bmp280_get_iir_filter os bus s).0 ≡ ret filter)
      × ((i2c_bmp280_get_standby_time os bus s).0 ≡ ret standby)

  -- A call has succeeded, and the handle is as it was but for the control measurement register,
  -- which is this one or has settled from it.
  abbrev pub HoldsControl : Bmp280 → ℕ → Outcome ⊤ × Dev Bmp280 W → Type 0
  HoldsControl h v r =
      (r.0 ≡ ret tt)
      × ((c : ℕ) × (r.1.handle ≡ some (record h { ctrl_meas_reg = c })) × Settles v c)

module _ {W : Type 0} (os : Os W) (bus : Bus W) (reg : W → ℕ → ℕ) (h : Bmp280)
    (laws : Sensor os bus h.i2c_dev_handle reg) where
  pub control_reads :
      (v : ℕ) (w : W)
      → Settles v (reg w reg_ctrl)
      → ControlReads os bus
          (power_mode v)
          (pressure_oversampling v)
          (temperature_oversampling v)
          (device h w)
  unfolding i2c_bmp280_get_power_mode i2c_bmp280_get_pressure_oversampling
      i2c_bmp280_get_temperature_oversampling ◌>>=◌ esp_arg_check modify effect status status_with
      pure
  control_reads v w e =
      let (c, w', ran, before, _, _) = get_control_lem os bus reg h laws w in
      let settled = Settles-trans v (reg w reg_ctrl) c e before in
      let (pressure, temperature) = Settles-others v c settled in
      (
        (power_mode c, rw ran refl, Settles-ModeAfter v c settled),
        rw ran (ap ret pressure),
        rw ran (ap ret temperature),
      )

  pub config_reads :
      (v : ℕ) (w : W)
      → reg w reg_config ≡ v
      → ConfigReads os bus (iir_filter v) (standby_time v) (device h w)
  unfolding i2c_bmp280_get_iir_filter i2c_bmp280_get_standby_time ◌>>=◌ esp_arg_check modify effect
      status status_with pure
  config_reads v w e =
      let (w', ran, same, _) = get_config_lem os bus reg h laws w in
      (rw ran (ap (λ r. ret (iir_filter r)) e), rw ran (ap (λ r. ret (standby_time r)) e))

module _ {W : Type 0} (os : Os W) (bus : Bus W) (reg : W → ℕ → ℕ) (h : Bmp280)
    (laws : Sensor os bus h.i2c_dev_handle reg) (w : W)
    (asleep : power_mode (reg w reg_ctrl) ≡ 0) where
  -- A setting in the control measurement register, and one in the configuration register.
  set_control-get :
      (update : ℕ → ℕ) (mode pressure temperature : ℕ)
      → update h.ctrl_meas_reg < 256
      → power_mode (update h.ctrl_meas_reg) ≡ mode
      → pressure_oversampling (update h.ctrl_meas_reg) ≡ pressure
      → temperature_oversampling (update h.ctrl_meas_reg) ≡ temperature
      → let r = set_control os bus update (device h w) in
        HoldsControl os bus h (update h.ctrl_meas_reg) r
        × ControlReads os bus mode pressure temperature r.1
  unfolding ◌>>=◌ esp_arg_check pure
  set_control-get update mode pressure temperature byte e₁ e₂ e₃ =
      let v = update h.ctrl_meas_reg in
      let (c, w', ran, stored, after, kept) =
        set_control_measurement_register-mirror os bus reg h laws v w byte asleep in
      let reads =
        control_reads os bus reg (record h { ctrl_meas_reg = c }) laws v w'
          (Settles-trans v c _ stored after) in
      rw (ran, ← e₁, ← e₂, ← e₃) ((refl, (c, refl, stored)), reads)

  set_config-get :
      (update : ℕ → ℕ) (filter standby : ℕ)
      → update h.config_reg < 256
      → iir_filter (with_reserved 0 (update h.config_reg)) ≡ filter
      → standby_time (with_reserved 0 (update h.config_reg)) ≡ standby
      → let r = set_config os bus update (device h w) in
        (r.0 ≡ ret tt)
        × (r.1.handle ≡ some (record h { config_reg = with_reserved 0 (update h.config_reg) }))
        × ConfigReads os bus filter standby r.1
  unfolding ◌>>=◌ esp_arg_check pure
  set_config-get update filter standby byte e₁ e₂ =
      let v = update h.config_reg in
      let to = with_reserved 0 v in
      let (w', ran, stored, slept) =
        set_configuration_register-mirror os bus reg h laws v w byte asleep in
      let reads = config_reads os bus reg (record h { config_reg = to }) laws to w' stored in
      rw (ran, ← e₁, ← e₂) (refl, refl, reads)

  -- The power mode of a sleeping sensor is set, the handle holding a byte of its register:
  -- afterwards the low two bits of the value are read back, or sleep if they are of a forced mode
  -- and the measurement is over; the two oversamplings are read as the handle held them; and the
  -- handle holds the register that was written, or what it has become by then.
  pub set_power_mode-get :
      (v : ℕ)
      → h.ctrl_meas_reg < 256
      → let r = i2c_bmp280_set_power_mode os bus v (device h w) in
        HoldsControl os bus h (with_power_mode v h.ctrl_meas_reg) r
        × ControlReads os bus
            (v % 4)
            (pressure_oversampling h.ctrl_meas_reg)
            (temperature_oversampling h.ctrl_meas_reg)
            r.1
  unfolding i2c_bmp280_set_power_mode with_power_mode
  set_power_mode-get v byte =
      set_control-get (with_power_mode v) (v % 4) (pressure_oversampling h.ctrl_meas_reg)
        (temperature_oversampling h.ctrl_meas_reg) (omega (arith, byte)) (omega arith) (omega arith)
        (omega arith)

  -- The same for the pressure oversampling, for the low three bits of the value; the power mode is
  -- the one that the handle held, or sleep.
  pub set_pressure_oversampling-get :
      (v : ℕ)
      → h.ctrl_meas_reg < 256
      → let r = i2c_bmp280_set_pressure_oversampling os bus v (device h w) in
        HoldsControl os bus h (with_pressure_oversampling v h.ctrl_meas_reg) r
        × ControlReads os bus
            (power_mode h.ctrl_meas_reg)
            (v % 8)
            (temperature_oversampling h.ctrl_meas_reg)
            r.1
  unfolding i2c_bmp280_set_pressure_oversampling with_pressure_oversampling
  set_pressure_oversampling-get v byte =
      set_control-get (with_pressure_oversampling v) (power_mode h.ctrl_meas_reg) (v % 8)
        (temperature_oversampling h.ctrl_meas_reg) (omega (arith, byte)) (omega arith) (omega arith)
        (omega arith)

  -- The same for the temperature oversampling.
  pub set_temperature_oversampling-get :
      (v : ℕ)
      → h.ctrl_meas_reg < 256
      → let r = i2c_bmp280_set_temperature_oversampling os bus v (device h w) in
        HoldsControl os bus h (with_temperature_oversampling v h.ctrl_meas_reg) r
        × ControlReads os bus
            (power_mode h.ctrl_meas_reg)
            (pressure_oversampling h.ctrl_meas_reg)
            (v % 8)
            r.1
  unfolding i2c_bmp280_set_temperature_oversampling with_temperature_oversampling
  set_temperature_oversampling-get v byte =
      set_control-get (with_temperature_oversampling v) (power_mode h.ctrl_meas_reg)
        (pressure_oversampling h.ctrl_meas_reg) (v % 8) (omega (arith, byte)) (omega arith)
        (omega arith) (omega arith)

  -- The filter of a sleeping sensor is set: afterwards its low three bits are read back, the standby
  -- time is that which the handle held, and the handle holds the register with its reserved bit
  -- cleared.
  pub set_iir_filter-get :
      (v : ℕ)
      → h.config_reg < 256
      → let r = i2c_bmp280_set_iir_filter os bus v (device h w) in
        (r.0 ≡ ret tt)
        × (r.1.handle
            ≡ some (record h { config_reg = with_reserved 0 (with_iir_filter v h.config_reg) }))
        × ConfigReads os bus (v % 8) (standby_time h.config_reg) r.1
  unfolding i2c_bmp280_set_iir_filter with_iir_filter with_reserved
  set_iir_filter-get v byte =
      set_config-get (with_iir_filter v) (v % 8) (standby_time h.config_reg) (omega (arith, byte))
        (omega arith) (omega arith)

  -- The same for the standby time.
  pub set_standby_time-get :
      (v : ℕ)
      → h.config_reg < 256
      → let r = i2c_bmp280_set_standby_time os bus v (device h w) in
        (r.0 ≡ ret tt)
        × (r.1.handle
            ≡ some (record h { config_reg = with_reserved 0 (with_standby_time v h.config_reg) }))
        × ConfigReads os bus (iir_filter h.config_reg) (v % 8) r.1
  unfolding i2c_bmp280_set_standby_time with_standby_time with_reserved
  set_standby_time-get v byte =
      set_config-get (with_standby_time v) (iir_filter h.config_reg) (v % 8) (omega (arith, byte))
        (omega arith) (omega arith)
