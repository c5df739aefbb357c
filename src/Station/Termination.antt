-- ===== src/Station/Termination.antt =====
-- The measurements of a round end.
use esp32_s3_i2c_mqtt_machba.Base.{ℕ, ◌^◌, ◌<◌, ◌≤◌, ◌≡◌, refl, inl, inr, false, Option, none, some}
use esp32_s3_i2c_mqtt_machba.Esp.{EspErr, Os}
use esp32_s3_i2c_mqtt_machba.Float.{Fp}
use esp32_s3_i2c_mqtt_machba.I2c.{Bus}
use esp32_s3_i2c_mqtt_machba.I2c.Action.{
  Outcome, ret, fail, aborted, out_of_fuel, status, raise, esp_arg_check, ◌>>=◌,
}
use esp32_s3_i2c_mqtt_machba.I2c.Ends.{
  runs_out, Ends, bind-Ends, arg_check-Ends, pure-Ends, effect-Ends, status_with-Ends, settle-ends,
  ReturnsOrAborts,
}
use esp32_s3_i2c_mqtt_machba.Ahtxx.Measure.{
  or_invalid_arg, i2c_ahtxx_get_measurement, i2c_ahtxx_get_measurements,
}
use esp32_s3_i2c_mqtt_machba.Bmp280.Device.{Bmp280}
use esp32_s3_i2c_mqtt_machba.Bmp280.Measure.{i2c_bmp280_get_pressure}
use esp32_s3_i2c_mqtt_machba.Bmp280.Poll.{TimerLaws, get_pressure-ReturnsOrAborts}
use esp32_s3_i2c_mqtt_machba.Station.Tasks.{or_nan}
use esp32_s3_i2c_mqtt_machba.Station.Measure.{
  Sensors, checked, and_then, sense_ahtxx, sense_bmp280, analyse_temperature, settle_bus, measure,
}

checked-ends : {A : Type 0} (o : Outcome A) → runs_out o ≡ false → runs_out (checked o) ≡ false
checked-ends (ret a) e = refl
checked-ends (fail c) e = refl
checked-ends (aborted c) e = refl
checked-ends out_of_fuel e = cc

and_then-ends :
    {S A B : Type 0} (o : Outcome A) (s : S) (f : A → S → Outcome B × S)
    → runs_out o ≡ false
    → ((a : A) → runs_out (f a s).0 ≡ false)
    → runs_out (and_then (o, s) f).0 ≡ false
and_then-ends (ret a) s f e rest = rest a
and_then-ends (fail c) s f e rest = refl
and_then-ends (aborted c) s f e rest = refl
and_then-ends out_of_fuel s f e rest = cc

ReturnsOrAborts-ends : {A : Type 0} (o : Outcome A) → ReturnsOrAborts o → runs_out o ≡ false
ReturnsOrAborts-ends o (inl (a, e)) = rw e
ReturnsOrAborts-ends o (inr (c, e)) = rw e

module _ {F D W : Type 0} (fp : Fp F D) (os : Os W) (bus : Bus W) where
  status-Ends : {H : Type 0} (f : W → EspErr × W) → Ends {H = H} (status f)
  unfolding status
  status-Ends f = record { ends = λ s. settle-ends s _ _ _ }

  dewpoint-Ends : (d : Option F) → Ends (or_invalid_arg fp os bus d)
  unfolding raise
  dewpoint-Ends none = record { ends = λ s. refl }
  dewpoint-Ends (some d) = pure-Ends d

  get_measurement-Ends : Ends (i2c_ahtxx_get_measurement fp os bus)
  unfolding i2c_ahtxx_get_measurement
  get_measurement-Ends = bind-Ends arg_check-Ends λ h. bind-Ends (status-Ends _) λ _.
      bind-Ends (effect-Ends _)
        λ _. bind-Ends (status_with-Ends _) λ rx. bind-Ends (effect-Ends _) λ _. pure-Ends _

  get_measurements-Ends : Ends (i2c_ahtxx_get_measurements fp os bus)
  unfolding i2c_ahtxx_get_measurements
  get_measurements-Ends =
      bind-Ends arg_check-Ends
        λ _. bind-Ends get_measurement-Ends λ m. bind-Ends (dewpoint-Ends _) λ d. pure-Ends _

  module _ (now : W → ℕ) (laws : TimerLaws os bus now) where
    get_pressure-ends :
        (fuel : ℕ) (h : Option Bmp280) (w : W)
        → 250000 ≤ fuel
        → now w < 2 ^ 61
        → runs_out (i2c_bmp280_get_pressure os bus fp fuel (record { handle = h; world = w })).0
          ≡ false
    unfolding i2c_bmp280_get_pressure ◌>>=◌ esp_arg_check raise
    get_pressure-ends fuel none w big soon = refl
    get_pressure-ends fuel (some h) w big soon =
        ReturnsOrAborts-ends _ (get_pressure-ReturnsOrAborts os bus now laws fp fuel h w big soon)

    -- With fuel for 250000 rounds of polling, the measurements of a round of sampling end, whatever the
    -- devices report, if the pressure is read before the timer reaches 2 ^ 61.
    pub measure-ends :
        (fuel : ℕ) (n : Sensors F D W)
        → 250000 ≤ fuel
        → now (settle_bus fp os bus (sense_ahtxx fp os bus n).1).world < 2 ^ 61
        → runs_out (measure fp os bus fuel n).0 ≡ false
    unfolding measure sense_ahtxx sense_bmp280 analyse_temperature
    measure-ends fuel n big soon =
        let d =
          i2c_ahtxx_get_measurements fp os bus (record { handle = n.ahtxx; world = n.world }) in
        and_then-ends (sense_ahtxx fp os bus n).0 (sense_ahtxx fp os bus n).1 _
          (checked-ends d.0 (get_measurements-Ends.ends _))
          (λ m.
            let n₁ = settle_bus fp os bus (
              analyse_temperature fp os bus (or_nan fp (λ x. x.0) m) (sense_ahtxx fp os bus n).1) in
            and_then-ends (sense_bmp280 fp os bus fuel n₁).0 (sense_bmp280 fp os bus fuel n₁).1 _
              (checked-ends _ (get_pressure-ends fuel n₁.bmp280 n₁.world big soon)) (λ p. refl))
