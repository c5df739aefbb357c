-- ===== src/Station/Measure.antt =====
-- src/main.c: what `sample_sensor_task` measures and analyses in a round of its loop.
use esp32_s3_i2c_mqtt_machba.Base.{ℕ, ◌*◌, ◌/◌, Option, none, some}
use esp32_s3_i2c_mqtt_machba.Esp.{Os}
use esp32_s3_i2c_mqtt_machba.Float.{Fp}
use esp32_s3_i2c_mqtt_machba.Window.{Window}
use esp32_s3_i2c_mqtt_machba.Trend.Fit.{TrendCode}
use esp32_s3_i2c_mqtt_machba.Trend.Handle.{Trend, scalar_trend_analysis}
use esp32_s3_i2c_mqtt_machba.Tendency.{TendencyCode, pressure_tendency_analysis}
use esp32_s3_i2c_mqtt_machba.I2c.{Bus}
use esp32_s3_i2c_mqtt_machba.I2c.Action.{Outcome, ret, fail, aborted, out_of_fuel}
use esp32_s3_i2c_mqtt_machba.Ahtxx.Device.{Ahtxx}
use esp32_s3_i2c_mqtt_machba.Ahtxx.Measure.{i2c_ahtxx_get_measurements}
use esp32_s3_i2c_mqtt_machba.Bmp280.Device.{Bmp280}
use esp32_s3_i2c_mqtt_machba.Bmp280.Measure.{i2c_bmp280_get_pressure}
use esp32_s3_i2c_mqtt_machba.Station.Tasks.{Readings, hecto, or_nan}

-- The handles of the task, its variables for the results of the analyses, and the world.
pub record Sensors (F D W : Type 0) : Type 0 where
  pub ahtxx : Option Ahtxx
  pub bmp280 : Option Bmp280
  pub ta_trend : Option (Trend F D)
  pub pa_trend : Option (Trend F D)
  pub pa_tendency : Option (Window F)
  pub ta_trend_code : TrendCode
  pub pa_trend_code : TrendCode
  pub pa_tendency_code : TendencyCode
  pub pa_change : F
  pub world : W

-- The number of an enumerator of `scalar_trend_codes_t` and of `pressure_tendency_codes_t`.
abbrev pub trend_number : TrendCode → ℕ
trend_number TrendCode.unknown = 1
trend_number TrendCode.rising = 2
trend_number TrendCode.steady = 3
trend_number TrendCode.falling = 4

abbrev pub tendency_number : TendencyCode → ℕ
tendency_number TendencyCode.unknown = 1
tendency_number TendencyCode.rising = 2
tendency_number TendencyCode.steady = 3
tendency_number TendencyCode.falling = 4

-- A status that the task compares with ESP_OK: `none` for any other.
abbrev pub checked : {A : Type 0} → Outcome A → Outcome (Option A)
checked (ret a) = ret (some a)
checked (fail e) = ret none
checked (aborted e) = aborted e
checked out_of_fuel = out_of_fuel

-- The rest of a round, unless the program has been aborted.
abbrev pub and_then : {S A B : Type 0} → Outcome A × S → (A → S → Outcome B × S) → Outcome B × S
and_then (ret a, s) f = f a s
and_then (fail e, s) f = (fail e, s)
and_then (aborted e, s) f = (aborted e, s)
and_then (out_of_fuel, s) f = (out_of_fuel, s)

module _ {F D W : Type 0} (fp : Fp F D) (os : Os W) (bus : Bus W) where
  -- An enumerator as a `float`.
  abbrev pub code_value : ℕ → F
  code_value n = fp.narrow (fp.of_nat n)

  unfoldable pub sense_ahtxx : Sensors F D W → Outcome (Option (F × F × F)) × Sensors F D W
  sense_ahtxx n =
      let (m, d) =
        i2c_ahtxx_get_measurements fp os bus (record { handle = n.ahtxx; world = n.world }) in
      (checked m, record n { ahtxx = d.handle; world = d.world })

  unfoldable pub sense_bmp280 : ℕ → Sensors F D W → Outcome (Option F) × Sensors F D W
  sense_bmp280 fuel n =
      let (p, d) =
        i2c_bmp280_get_pressure os bus fp fuel (record { handle = n.bmp280; world = n.world }) in
      (checked p, record n { bmp280 = d.handle; world = d.world })

  -- The air temperature trend.
  unfoldable pub analyse_temperature : F → Sensors F D W → Sensors F D W
  analyse_temperature ta n =
      let (_, t, code) = scalar_trend_analysis fp n.ta_trend ta n.ta_trend_code in
      record n { ta_trend = t; ta_trend_code = code }

  -- The settling delay between the two devices.
  abbrev pub settle_bus : Sensors F D W → Sensors F D W
  settle_bus n = record n { world = os.v_task_delay (50 * bus.config_tick_rate_hz / 1000) n.world }

  -- The pressure trend, and then the pressure tendency.
  unfoldable pub analyse_pressure : F → Sensors F D W → Sensors F D W
  analyse_pressure pa n =
      let (_, t, code) = scalar_trend_analysis fp n.pa_trend pa n.pa_trend_code in
      let (_, w, out) =
        pressure_tendency_analysis fp n.pa_tendency pa (n.pa_tendency_code, n.pa_change) in
      record n {
        pa_trend = t;
        pa_trend_code = code;
        pa_tendency = w;
        pa_tendency_code = out.0;
        pa_change = out.1;
      }

  -- What the round reports.
  abbrev pub readings : Option (F × F × F) → Option F → Sensors F D W → Readings F
  readings m p n = record {
    measurements = m;
    temperature_trend = code_value (trend_number n.ta_trend_code);
    pressure = p;
    pressure_trend = code_value (trend_number n.pa_trend_code);
    tendency = code_value (tendency_number n.pa_tendency_code);
    change = n.pa_change;
  }

  -- The devices and the analyses of a round, with fuel for the polling loop of the BMP280.
  unfoldable pub measure : ℕ → Sensors F D W → Outcome (Readings F) × Sensors F D W
  measure fuel n = and_then (sense_ahtxx n) λ m n₁.
      let ta = or_nan fp (λ x. x.0) m in
      and_then (sense_bmp280 fuel (settle_bus (analyse_temperature ta n₁)))
        λ p n₂. let n₃ = analyse_pressure (or_nan fp (hecto fp) p) n₂ in (ret (readings m p n₃), n₃)
