-- ===== src/Station/Log.antt =====
-- What the station is to publish, as a function of what its devices report.
use esp32_s3_i2c_mqtt_machba.Base.{⊤, ℕ, ◌+◌, ◌*◌, ◌≤◌, ◌<◌, Option, List, [], ◌∷◌, ◌++◌, map}
use esp32_s3_i2c_mqtt_machba.Base.Word.{u64}
use esp32_s3_i2c_mqtt_machba.Float.{Fp}
use esp32_s3_i2c_mqtt_machba.Trend.History.{trend_of}
use esp32_s3_i2c_mqtt_machba.Tendency.History.{tendency_of}
use esp32_s3_i2c_mqtt_machba.Station.Sample.{Parameter, Sample, mqtt_net_device_id}
use esp32_s3_i2c_mqtt_machba.Station.Tasks.{Readings, hecto, or_nan}
use esp32_s3_i2c_mqtt_machba.Station.Rounds.{reading, sending_order}
use esp32_s3_i2c_mqtt_machba.Station.Measure.{trend_number, tendency_number}

-- What the devices report in a pass: the time of the event in milliseconds, the measurements of the
-- AHTxx and the pressure of the BMP280 in Pa, `none` for a device that could not be read.
pub record Observation (F : Type 0) : Type 0 where
  pub event : ℕ
  pub measurements : Option (F × F × F)
  pub pressure : Option F

abbrev pub observed : {F : Type 0} → ℕ × Readings F → Observation F
observed (event, r) = record { event = event; measurements = r.measurements; pressure = r.pressure }

module _ {F D : Type 0} (fp : Fp F D) where
  abbrev pub temperature : Observation F → F
  temperature o = or_nan fp (λ m. m.0) o.measurements

  -- In hPa.
  abbrev pub pressure_of : Observation F → F
  pressure_of o = or_nan fp (hecto fp) o.pressure

  abbrev number : ℕ → F
  number n = fp.narrow (fp.of_nat n)

  -- A sample of the station.
  abbrev pub sample_of : ℕ → Readings F → Parameter → Sample F
  sample_of event r p = record {
    device_id = mqtt_net_device_id;
    timestamp = u64 (1000000 * event);
    parameter = p;
    value = reading fp r p;
  }

  -- The critical values of the two trends, and the sizes of the windows of the trends and of the
  -- tendency.
  module _ (ta_critical pa_critical : D) (size long : ℕ) where
    -- The readings of a pass, given all the temperatures and pressures up to it.
    abbrev pub analysed : List F → List F → Observation F → Readings F
    analysed tas pas o = record {
      measurements = o.measurements;
      temperature_trend = number (trend_number (trend_of fp ta_critical size tas));
      pressure = o.pressure;
      pressure_trend = number (trend_number (trend_of fp pa_critical size pas));
      tendency = number (tendency_number (tendency_of fp long pas).0);
      change = (tendency_of fp long pas).1;
    }

    -- The samples of some passes, after others that had these temperatures and pressures.
    abbrev pub log : List F → List F → List (Observation F) → List (Sample F)
    log tas pas [] = []
    log tas pas (o ∷ rest) =
        let tas' = tas ++ temperature o ∷ [] in
        let pas' = pas ++ pressure_of o ∷ [] in
        map (sample_of o.event (analysed tas' pas' o)) sending_order ++ log tas' pas' rest

-- Events from `first` on, at least `period` after one another.
abbrev pub AreApart : {F : Type 0} → ℕ → ℕ → List (ℕ × Readings F) → Type 0
AreApart period first [] = ⊤
AreApart period first ((event, r) ∷ rest) = (first ≤ event) × AreApart period (event + period) rest

-- Every event is before this time.
abbrev pub EventsBelow : {F : Type 0} → ℕ → List (ℕ × Readings F) → Type 0
EventsBelow bound [] = ⊤
EventsBelow bound ((event, r) ∷ rest) = (event < bound) × EventsBelow bound rest
