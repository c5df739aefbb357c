-- ===== src/Bmp280/Poll.antt =====
-- The polling loop ends: enough fuel is given, and what it returns is told apart.
use esp32_s3_i2c_mqtt_machba.Base.{
  ℕ, zero, suc, ◌+◌, ◌*◌, ◌/◌, ◌^◌, ◌≤◌, ◌<◌, ◌≡◌, ◌⊎◌, List, refl, ap, Bool, true, false,
  Bool-cases, inl, inr, leb, leb_false→lt, if◌then◌else◌, Option, none, some, arith,
}
use esp32_s3_i2c_mqtt_machba.Base.Word.{sub64}
use esp32_s3_i2c_mqtt_machba.Esp.{Os}
use esp32_s3_i2c_mqtt_machba.I2c.{Bus}
use esp32_s3_i2c_mqtt_machba.I2c.Action.{
  Dev, ◌>>=◌, gets, effect, pure, raise, esp_arg_check, esp_error_check, abort_on_fail,
}
use esp32_s3_i2c_mqtt_machba.I2c.Transfer.{i2c_master_bus_read_uint8, i2c_master_bus_read_byte48}
use esp32_s3_i2c_mqtt_machba.I2c.Ends.{
  runs_out, fails, continue-fails, ReturnsOrAborts, returns_or_aborts, abort_on_fail-ends, Ends,
  bind-Ends, arg_check-Ends, modify-Ends, pure-Ends, effect-Ends, status_with-Ends, continue-ends,
  continue-abort_on_fail,
}
use esp32_s3_i2c_mqtt_machba.Bmp280.Device.{Bmp280, reg_pressure, i2c_bmp280_get_status_register}
use esp32_s3_i2c_mqtt_machba.Bmp280.Measure.{
  i2c_bmp280_get_data_status, poll_again, poll, i2c_bmp280_get_fixed_measurements,
  i2c_bmp280_get_pressure,
}
use esp32_s3_i2c_mqtt_machba.Float.{Fp}
use esp32_s3_i2c_mqtt_machba.I2c.Time.{
  Takes, bind-Takes, arg_check-Takes, status_with-Takes, pure-Forward, bind-Forward, modify-Forward,
  effect-Forward, arg_check-Forward,
}

-- The timer counts microseconds from boot, below 2 ^ 63: no service turns it back, and, in the first
-- 2 ^ 62 of them, a transfer takes at least one.
pub record TimerLaws {W : Type 0} (os : Os W) (bus : Bus W) (now : W → ℕ) : Type 0 where
  pub timer_value : (w : W) → (bus.esp_timer_get_time w).0 ≡ now w
  pub timer_keeps : (w : W) → now (bus.esp_timer_get_time w).1 ≡ now w
  pub delay_forward : (t : ℕ) (w : W) → now w ≤ now (os.v_task_delay t w)
  pub below : (w : W) → now w < 2 ^ 63
  pub transfer_takes :
      (dev : ℕ) (tx : List ℕ) (n : ℕ) (w : W)
      → now w < 2 ^ 62
      → now w < now (bus.i2c_master_transmit_receive dev tx n w).2

module _ {W : Type 0} (os : Os W) (bus : Bus W) where
  status_register-Ends : Ends (i2c_bmp280_get_status_register os bus)
  unfolding i2c_bmp280_get_status_register i2c_master_bus_read_uint8
  status_register-Ends = bind-Ends arg_check-Ends (λ h.
      bind-Ends (bind-Ends (status_with-Ends _) (λ rx. pure-Ends _))
        (λ v. bind-Ends (modify-Ends _) (λ _. effect-Ends _)))

  data_status-Ends : Ends (i2c_bmp280_get_data_status os bus)
  unfolding i2c_bmp280_get_data_status
  data_status-Ends =
      bind-Ends arg_check-Ends
        (λ _. bind-Ends status_register-Ends (λ _. bind-Ends arg_check-Ends (λ h. pure-Ends _)))

module _ {W : Type 0} (os : Os W) (bus : Bus W) (now : W → ℕ) (laws : TimerLaws os bus now) where
  status_register-Takes :
      (h : Bmp280) (w : W)
      → now w < 2 ^ 62
      → Takes now (record { handle = some h; world = w }) (i2c_bmp280_get_status_register os bus)
  unfolding i2c_bmp280_get_status_register i2c_master_bus_read_uint8
  status_register-Takes h w lt = arg_check-Takes _ (
      bind-Takes
        (bind-Takes (status_with-Takes _ _ (laws.transfer_takes _ _ _ _ lt)) (λ rx. pure-Forward _))
        (λ v. bind-Forward (modify-Forward _) (λ _. effect-Forward _ (laws.delay_forward _))))

  data_status-Takes :
      (h : Bmp280) (w : W)
      → now w < 2 ^ 62
      → Takes now (record { handle = some h; world = w }) (i2c_bmp280_get_data_status os bus)
  unfolding i2c_bmp280_get_data_status
  data_status-Takes h w lt = arg_check-Takes _ (
      bind-Takes (status_register-Takes h w lt)
        (λ _. bind-Forward arg_check-Forward (λ h'. pure-Forward _)))

  data_status-takes :
      (h : Option Bmp280) (w : W)
      → now w < 2 ^ 62
      → let r = i2c_bmp280_get_data_status os bus (record { handle = h; world = w }) in
        (fails r.0 ≡ true) ⊎ (now w < now r.1.world)
  unfolding i2c_bmp280_get_data_status ◌>>=◌ esp_arg_check raise
  data_status-takes none w lt = inl refl
  data_status-takes (some h) w lt = inr (data_status-Takes h w lt).takes

  -- The rounds that are left are enough: there are as many as microseconds until the timeout.
  abbrev EnoughFuel : ℕ → ℕ → ℕ → Type 0
  EnoughFuel fuel start_time t =
      (start_time ≤ t) × (t < start_time + 250000) × (start_time + 250000 ≤ t + fuel)

  poll_again-ends :
      (fuel start_time t : ℕ) (ready : Bool) (s : Dev Bmp280 W)
      → start_time ≤ t
      → t < 2 ^ 63
      → (t < start_time + 250000 → runs_out (poll os bus fuel start_time s).0 ≡ false)
      → runs_out (poll_again os bus start_time ready t (poll os bus fuel start_time) s).0 ≡ false
  unfolding raise pure
  poll_again-ends fuel start_time t ready s h small rest =
      elim (Bool-cases (leb 250000 (sub64 t start_time))) [
        | inl late ↦ rw late refl
        | inr early ↦
            let lt = leb_false→lt 250000 (sub64 t start_time) early in
            rw early (done ready (rest (omega arith)))
      ]
    where
      done :
          (b : Bool)
          → runs_out (poll os bus fuel start_time s).0 ≡ false
          → runs_out ((if b then pure tt else poll os bus fuel start_time) s).0 ≡ false
      done true e = refl
      done false e = e

  pub poll-ends :
      (fuel start_time : ℕ) (s : Dev Bmp280 W)
      → EnoughFuel fuel start_time (now s.world)
      → start_time < 2 ^ 61
      → runs_out (poll os bus fuel start_time s).0 ≡ false
  unfolding poll ◌>>=◌ effect gets pure
  poll-ends zero start_time s enough soon = absurd (omega arith)
  poll-ends (suc fuel) start_time s enough soon =
      elim (data_status-takes s.handle s.world (omega arith)) [
        | inl failed ↦ continue-fails (i2c_bmp280_get_data_status os bus s) _ failed
        | inr taken ↦
            continue-ends (i2c_bmp280_get_data_status os bus s) _ ((data_status-Ends os bus).ends s)
              (λ ready.
                let w1 = (i2c_bmp280_get_data_status os bus s).1.world in
                let w2 = os.v_task_delay (1 * bus.config_tick_rate_hz / 1000) w1 in
                let s3 : Dev Bmp280 W = record (i2c_bmp280_get_data_status os bus s).1 {
                  world = (bus.esp_timer_get_time w2).1;
                } in
                let forward = laws.delay_forward (1 * bus.config_tick_rate_hz / 1000) w1 in
                let value = laws.timer_value w2 in
                let keeps = laws.timer_keeps w2 in
                let small = laws.below w2 in
                poll_again-ends fuel start_time (bus.esp_timer_get_time w2).0 ready s3 (omega arith)
                  (omega arith)
                  (λ early.
                    poll-ends fuel start_time s3 (omega arith, omega arith, omega arith) soon))
      ]

  byte48-Ends : (dev reg_addr : ℕ) → Ends {H = Bmp280} (i2c_master_bus_read_byte48 bus dev reg_addr)
  unfolding i2c_master_bus_read_byte48
  byte48-Ends dev reg_addr = status_with-Ends _

  esp_arg_check-world :
      (h : Option Bmp280) (w : W) → (esp_arg_check (record { handle = h; world = w })).1.world ≡ w
  unfolding esp_arg_check pure raise
  esp_arg_check-world none w = refl
  esp_arg_check-world (some h) w = refl

  -- With fuel for 250000 rounds, which is what the timeout in microseconds allows, a measurement
  -- that starts before the timer reaches 2 ^ 61 comes back, whatever the sensor reports.
  pub get_fixed_measurements-ends :
      (fuel : ℕ) (s : Dev Bmp280 W)
      → 250000 ≤ fuel
      → now s.world < 2 ^ 61
      → runs_out (i2c_bmp280_get_fixed_measurements os bus fuel s).0 ≡ false
  unfolding i2c_bmp280_get_fixed_measurements ◌>>=◌ gets effect pure
  get_fixed_measurements-ends fuel s big soon =
      continue-ends (esp_arg_check s) _ (arg_check-Ends.ends s) (λ h.
        let same = ap now (esp_arg_check-world s.handle s.world) in
        let w = (esp_arg_check s).1.world in
        let s2 : Dev Bmp280 W = record (esp_arg_check s).1 {
          world = (bus.esp_timer_get_time w).1;
        } in
        let value = laws.timer_value w in
        let keeps = laws.timer_keeps w in
        continue-ends (poll os bus fuel (bus.esp_timer_get_time w).0 s2) _
          (poll-ends fuel (bus.esp_timer_get_time w).0 s2 (omega arith, omega arith, omega arith)
            (omega arith))
          (λ _.
            continue-ends _ _ ((byte48-Ends h.i2c_dev_handle reg_pressure).ends _) (λ bytes. refl)))

  -- On a handle that is not null, before the timer reaches 2 ^ 61, a reading of the pressure with
  -- fuel for 250000 rounds returns a value or aborts the program: it never returns an error code.
  pub get_pressure-ReturnsOrAborts :
      {F D : Type 0} (fp : Fp F D) (fuel : ℕ) (h : Bmp280) (w : W)
      → 250000 ≤ fuel
      → now w < 2 ^ 61
      → ReturnsOrAborts
          (i2c_bmp280_get_pressure os bus fp fuel (record { handle = some h; world = w })).0
  unfolding i2c_bmp280_get_pressure ◌>>=◌ esp_arg_check esp_error_check pure
  get_pressure-ReturnsOrAborts fp fuel h w big soon =
      let m =
        i2c_bmp280_get_fixed_measurements os bus fuel (record { handle = some h; world = w }) in
      let ended =
        get_fixed_measurements-ends fuel (record { handle = some h; world = w }) big soon in
      returns_or_aborts _ (continue-abort_on_fail m _ (λ a s. refl))
        (continue-ends (abort_on_fail m) _ (abort_on_fail-ends m ended) (λ a. refl))
