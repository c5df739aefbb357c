-- ===== src/Bmp280/Mirror.antt =====
-- What the data sheet of the sensor says of its two registers of settings, and what follows for the
-- reads and writes of them.
use esp32_s3_i2c_mqtt_machba.Base.{
  ℕ, ◌*◌, ◌/◌, ◌%◌, ◌<◌, ◌≡◌, ◌∙◌, ◌⊎◌, inl, inr, refl, ap, [], ◌∷◌, some, arith,
}
use esp32_s3_i2c_mqtt_machba.Esp.{esp_ok, Os}
use esp32_s3_i2c_mqtt_machba.I2c.{Bus}
use esp32_s3_i2c_mqtt_machba.I2c.Action.{
  ret, ◌>>=◌, esp_arg_check, modify, effect, status, status_with, pure, Dev,
}
use esp32_s3_i2c_mqtt_machba.I2c.Transfer.{i2c_master_bus_read_uint8, i2c_master_bus_write_uint8}
use esp32_s3_i2c_mqtt_machba.Bmp280.Registers.{power_mode, with_reserved}
use esp32_s3_i2c_mqtt_machba.Bmp280.Device.{
  Bmp280, reg_ctrl, reg_config, i2c_bmp280_get_control_measurement_register,
  i2c_bmp280_get_configuration_register, i2c_bmp280_set_control_measurement_register,
  i2c_bmp280_set_configuration_register,
}

-- The two values of the power mode that start a single measurement.
abbrev pub IsForced : ℕ → Type 0
IsForced mode = (mode ≡ 1) ⊎ (mode ≡ 2)

-- What a control measurement register becomes in time: it stays as it is, or a single measurement
-- ends and the sensor is back in sleep mode, with the other fields as they were.
abbrev pub Settles : ℕ → ℕ → Type 0
Settles v v' = (v' ≡ v) ⊎ (IsForced (power_mode v) × (v' ≡ v / 4 * 4))

pub Settles-trans : (a b c : ℕ) → Settles a b → Settles b c → Settles a c
Settles-trans a b c (inl e) (inl e') = inl (e' ∙ e)
Settles-trans a b c (inl e) (inr (forced, e')) = inr (rw e at forced, rw e at e')
Settles-trans a b c (inr (forced, e)) (inl e') = inr (forced, e' ∙ e)
Settles-trans a b c (inr (forced, e)) (inr (forced', e')) = inl (absurd (omega (arith, forced', e)))

-- In sleep mode nothing changes.
pub Settles-asleep : (v v' : ℕ) → power_mode v ≡ 0 → Settles v v' → v' ≡ v
Settles-asleep v v' asleep (inl e) = e
Settles-asleep v v' asleep (inr (forced, e)) = absurd (omega (arith, asleep, forced))

-- A sensor at `dev`, `reg` being what its registers hold. The transfers to it succeed. While it is
-- asleep, a byte that is written to the control measurement register takes effect, and so does one
-- with a clear reserved bit in the configuration register; in the other modes, in which the data
-- sheet lets a write be delayed or ignored, nothing is said of writes. The configuration register
-- changes by no other way; the control measurement register settles as time passes.
pub record Sensor {W : Type 0} (os : Os W) (bus : Bus W) (dev : ℕ) (reg : W → ℕ → ℕ) : Type 0 where
  pub write_ok : (r v : ℕ) (w : W) → (bus.i2c_master_transmit dev (r ∷ v ∷ []) w).0 ≡ esp_ok
  pub read_ok : (r : ℕ) (w : W) → (bus.i2c_master_transmit_receive dev (r ∷ []) 1 w).0 ≡ esp_ok
  pub control_written :
      (v : ℕ) (w : W)
      → v < 256
      → power_mode (reg w reg_ctrl) ≡ 0
      → Settles v (reg (bus.i2c_master_transmit dev (reg_ctrl ∷ v ∷ []) w).1 reg_ctrl)
  pub control_keeps :
      (v : ℕ) (w : W)
      → reg (bus.i2c_master_transmit dev (reg_ctrl ∷ v ∷ []) w).1 reg_config ≡ reg w reg_config
  pub config_written :
      (v : ℕ) (w : W)
      → v < 256
      → v / 2 % 2 ≡ 0
      → power_mode (reg w reg_ctrl) ≡ 0
      → reg (bus.i2c_master_transmit dev (reg_config ∷ v ∷ []) w).1 reg_config ≡ v
  pub config_settles :
      (v : ℕ) (w : W)
      → Settles
          (reg w reg_ctrl)
          (reg (bus.i2c_master_transmit dev (reg_config ∷ v ∷ []) w).1 reg_ctrl)
  pub control_read :
      (w : W)
      → let r = bus.i2c_master_transmit_receive dev (reg_ctrl ∷ []) 1 w in
        (v : ℕ) × (r.1 ≡ v ∷ []) × Settles (reg w reg_ctrl) v × Settles v (reg r.2 reg_ctrl)
  pub config_read :
      (w : W)
      → (bus.i2c_master_transmit_receive dev (reg_config ∷ []) 1 w).1 ≡ reg w reg_config ∷ []
  pub read_settles :
      (r : ℕ) (w : W)
      → Settles (reg w reg_ctrl) (reg (bus.i2c_master_transmit_receive dev (r ∷ []) 1 w).2 reg_ctrl)
  pub read_keeps :
      (r : ℕ) (w : W)
      → reg (bus.i2c_master_transmit_receive dev (r ∷ []) 1 w).2 reg_config ≡ reg w reg_config
  pub delay_settles :
      (t : ℕ) (w : W) → Settles (reg w reg_ctrl) (reg (os.v_task_delay t w) reg_ctrl)
  pub delay_keeps : (t : ℕ) (w : W) → reg (os.v_task_delay t w) reg_config ≡ reg w reg_config

module _ {W : Type 0} (os : Os W) (bus : Bus W) (reg : W → ℕ → ℕ) (h : Bmp280)
    (laws : Sensor os bus h.i2c_dev_handle reg) where
  abbrev pub with_handle : Bmp280 → W → Dev Bmp280 W
  with_handle h' w = record { handle = some h'; world = w }

  read_uint8_lem :
      (r v : ℕ) (w : W)
      → (bus.i2c_master_transmit_receive h.i2c_dev_handle (r ∷ []) 1 w).1 ≡ v ∷ []
      → i2c_master_bus_read_uint8 bus h.i2c_dev_handle r (with_handle h w)
        ≡ (ret v, with_handle h (bus.i2c_master_transmit_receive h.i2c_dev_handle (r ∷ []) 1 w).2)
  unfolding i2c_master_bus_read_uint8 ◌>>=◌ esp_arg_check modify effect status status_with pure
  read_uint8_lem r v w e = rw (laws.read_ok r w, e) refl

  -- A read of the control measurement register gives what it holds at some moment of the call.
  pub get_control_lem :
      (w : W)
      → (c : ℕ) × (w' : W) × (i2c_bmp280_get_control_measurement_register os bus (with_handle h w)
          ≡ (ret tt, with_handle (record h { ctrl_meas_reg = c }) w'))
        × Settles (reg w reg_ctrl) c
        × Settles c (reg w' reg_ctrl)
        × (reg w' reg_config ≡ reg w reg_config)
  unfolding i2c_bmp280_get_control_measurement_register ◌>>=◌ esp_arg_check modify effect status
      status_with pure
  get_control_lem w =
      let (c, value, before, after) = laws.control_read w in
      let w₁ = (bus.i2c_master_transmit_receive h.i2c_dev_handle (reg_ctrl ∷ []) 1 w).2 in
      let t = 5 * bus.config_tick_rate_hz / 1000 in
      (
        c,
        os.v_task_delay t w₁,
        rw (read_uint8_lem reg_ctrl c w value) refl,
        before,
        Settles-trans c _ _ after (laws.delay_settles t w₁),
        laws.delay_keeps t w₁ ∙ laws.read_keeps reg_ctrl w,
      )

  pub get_config_lem :
      (w : W)
      → (w' : W) × (i2c_bmp280_get_configuration_register os bus (with_handle h w)
          ≡ (ret tt, with_handle (record h { config_reg = reg w reg_config }) w'))
        × (reg w' reg_config ≡ reg w reg_config)
        × Settles (reg w reg_ctrl) (reg w' reg_ctrl)
  unfolding i2c_bmp280_get_configuration_register ◌>>=◌ esp_arg_check modify effect status
      status_with pure
  get_config_lem w =
      let w₁ = (bus.i2c_master_transmit_receive h.i2c_dev_handle (reg_config ∷ []) 1 w).2 in
      let t = 5 * bus.config_tick_rate_hz / 1000 in
      (
        os.v_task_delay t w₁,
        rw (read_uint8_lem reg_config (reg w reg_config) w (laws.config_read w)) refl,
        laws.delay_keeps t w₁ ∙ laws.read_keeps reg_config w,
        Settles-trans (reg w reg_ctrl) _ _ (laws.read_settles reg_config w)
            (laws.delay_settles t w₁),
      )

  write_uint8_lem :
      (r v : ℕ) (w : W)
      → i2c_master_bus_write_uint8 bus h.i2c_dev_handle r v (with_handle h w)
        ≡ (ret tt, with_handle h (bus.i2c_master_transmit h.i2c_dev_handle (r ∷ v ∷ []) w).1)
  unfolding i2c_master_bus_write_uint8 ◌>>=◌ esp_arg_check modify effect status status_with pure
  write_uint8_lem r v w = rw (laws.write_ok r v w) refl

  -- A byte that is written to the control measurement register of a sleeping sensor: the handle
  -- holds what it has become when it is read again, and the configuration register is kept.
  pub set_control_measurement_register-mirror :
      (v : ℕ) (w : W)
      → v < 256
      → power_mode (reg w reg_ctrl) ≡ 0
      → (c : ℕ) × (w' : W) × (i2c_bmp280_set_control_measurement_register os bus v (with_handle h w)
          ≡ (ret tt, with_handle (record h { ctrl_meas_reg = c }) w'))
        × Settles v c
        × Settles c (reg w' reg_ctrl)
        × (reg w' reg_config ≡ reg w reg_config)
  unfolding i2c_bmp280_set_control_measurement_register ◌>>=◌ esp_arg_check modify effect status
      status_with pure
  set_control_measurement_register-mirror v w byte asleep =
      let t = 5 * bus.config_tick_rate_hz / 1000 in
      let w₁ = (bus.i2c_master_transmit h.i2c_dev_handle (reg_ctrl ∷ v ∷ []) w).1 in
      let w₂ = os.v_task_delay t w₁ in
      let (c, w', ran, before, after, kept) = get_control_lem w₂ in
      let stored =
        Settles-trans v _ _ (laws.control_written v w byte asleep) (laws.delay_settles t w₁) in
      (
        c,
        w',
        rw (write_uint8_lem reg_ctrl v w) ran,
        Settles-trans v _ c stored before,
        after,
        kept ∙ laws.delay_keeps t w₁ ∙ laws.control_keeps v w,
      )

  -- A byte that is written to the configuration register of a sleeping sensor is, with its reserved
  -- bit cleared, what the device holds afterwards, and what the handle does; the sensor sleeps on.
  pub set_configuration_register-mirror :
      (v : ℕ) (w : W)
      → v < 256
      → power_mode (reg w reg_ctrl) ≡ 0
      → (w' : W) × (i2c_bmp280_set_configuration_register os bus v (with_handle h w)
          ≡ (ret tt, with_handle (record h { config_reg = with_reserved 0 v }) w'))
        × (reg w' reg_config ≡ with_reserved 0 v)
        × (reg w' reg_ctrl ≡ reg w reg_ctrl)
  unfolding i2c_bmp280_set_configuration_register with_reserved ◌>>=◌ esp_arg_check modify effect
      status status_with pure
  set_configuration_register-mirror v w byte asleep =
      let t = 5 * bus.config_tick_rate_hz / 1000 in
      let sent = with_reserved 0 v in
      let w₁ = (bus.i2c_master_transmit h.i2c_dev_handle (reg_config ∷ sent ∷ []) w).1 in
      let w₂ = os.v_task_delay t w₁ in
      let (w', ran, same, settled) = get_config_lem w₂ in
      let stored : reg w₂ reg_config ≡ sent =
        laws.delay_keeps t w₁
        ∙ laws.config_written sent w (omega (arith, byte)) (omega arith) asleep in
      let slept : reg w₂ reg_ctrl ≡ reg w reg_ctrl = Settles-asleep (reg w reg_ctrl) _ asleep (
        Settles-trans (reg w reg_ctrl) _ _ (laws.config_settles sent w)
          (laws.delay_settles t w₁)) in
      (
        w',
        rw (write_uint8_lem reg_config sent w)
            (ran ∙ ap (λ r. (ret tt, with_handle (record h { config_reg = r }) w')) stored),
        same ∙ stored,
        Settles-asleep (reg w₂ reg_ctrl) _ (ap power_mode slept ∙ asleep) settled ∙ slept,
      )
