-- ===== src/Station/Rounds.antt =====
-- The rounds of the sampling task against what is published of them.
use mathlib.Core.List.{append-nil}
use esp32_s3_i2c_mqtt_machba.Base.{
  ℕ, ◌*◌, ◌≡◌, ◌∙◌, refl, sym, inr, true, Option, none, some, List, [], ◌∷◌, ◌++◌, map, arith,
}
use esp32_s3_i2c_mqtt_machba.Base.Word.{u64}
use esp32_s3_i2c_mqtt_machba.Float.{Fp}
use esp32_s3_i2c_mqtt_machba.Station.Sample.{
  Parameter, air_temperature, air_temperature_trend, dewpoint_temperature, relative_humidity,
  atmospheric_pressure, atmospheric_pressure_tendency, atmospheric_pressure_change,
  atmospheric_pressure_trend, Sample, Store, write_sample,
}
use esp32_s3_i2c_mqtt_machba.Station.Queue.{QueueService, QueueLaws}
use esp32_s3_i2c_mqtt_machba.Station.Tasks.{Readings, Station, wake, Run, round, hecto, or_nan}
use esp32_s3_i2c_mqtt_machba.Station.Delivery.{Owes, OnTime, Run-OnTime}

-- The parameters in the order in which a round sends them.
abbrev pub sending_order : List Parameter
sending_order =
    air_temperature ∷ air_temperature_trend ∷ relative_humidity ∷ dewpoint_temperature
    ∷ atmospheric_pressure ∷ atmospheric_pressure_trend ∷ atmospheric_pressure_tendency
    ∷ atmospheric_pressure_change ∷ []

module _ {F D : Type 0} (fp : Fp F D) where
  -- What is to be reported of a parameter: NAN for what could not be read, the pressure in hPa.
  abbrev pub reading : Readings F → Parameter → F
  reading r air_temperature = or_nan fp (λ m. m.0) r.measurements
  reading r air_temperature_trend = r.temperature_trend
  reading r dewpoint_temperature = or_nan fp (λ m. m.2) r.measurements
  reading r relative_humidity = or_nan fp (λ m. m.1) r.measurements
  reading r atmospheric_pressure = or_nan fp (hecto fp) r.pressure
  reading r atmospheric_pressure_tendency = r.tendency
  reading r atmospheric_pressure_change = r.change
  reading r atmospheric_pressure_trend = r.pressure_trend

  abbrev pub sampled : Store F → ℕ → Readings F → Parameter → Sample F
  sampled store event r p = record (store p) {
    timestamp = u64 (1000000 * event);
    value = reading r p;
  }

  -- The samples of a round in the order in which they are to be published.
  abbrev pub report : Store F → ℕ → Readings F → List (Sample F)
  report store event r = map (sampled store event r) sending_order

  -- A round owes its report. The readings are split to see which statements it has.
  module _ (published : List (Sample F)) (store : Store F) (event : ℕ)
      (temperature_trend pressure_trend tendency change : F) where
    abbrev read : Option (F × F × F) → Option F → Readings F
    read m p = record {
      measurements = m;
      temperature_trend = temperature_trend;
      pressure = p;
      pressure_trend = pressure_trend;
      tendency = tendency;
      change = change;
    }

    abbrev OwesReport : Readings F → Type 0
    OwesReport r = Owes (published ++ report store event r) published [] (round fp event r) store

    round-Owes : (m : Option (F × F × F)) (p : Option F) → OwesReport (read m p)
    unfolding round write_sample
    round-Owes none none = record { owed = refl; room = omega arith; quiet = inr (refl, tt) }
    round-Owes none (some p) = record { owed = refl; room = omega arith; quiet = inr (refl, tt) }
    round-Owes (some m) none = record { owed = refl; room = omega arith; quiet = inr (refl, tt) }
    round-Owes (some m) (some p) = record {
      owed = refl;
      room = omega arith;
      quiet = inr (refl, tt);
    }

module _ {F D Q : Type 0} (fp : Fp F D) (service : QueueService Q) (contents : Q → List Parameter)
    (laws : QueueLaws service contents) where
  -- The rounds before have been published.
  pub record IsDrained (s : Station F Q) : Type 0 where
    pub none_left : s.left ≡ []
    pub none_held : s.received ≡ none
    pub none_queued : contents s.queue ≡ []

  module _ (event : ℕ) (r : Readings F) (s : Station F Q) (on : s.mqtt_connected ≡ true)
      (drained : IsDrained s) where
    abbrev goal : List (Sample F)
    goal = s.published ++ report fp s.store event r

    pub wake-OnTime : OnTime fp service contents laws goal s.refused (wake fp service event r s)
    unfolding wake
    wake-OnTime = rw on (record {
      connected = refl;
      owes =
          rw (drained.none_held, drained.none_queued)
            (round-Owes fp s.published s.store event r.temperature_trend r.pressure_trend r.tendency
              r.change r.measurements r.pressure);
      none_lost = refl;
    })

    -- What has been published at any point of a round that starts when the rounds before have been
    -- published, in any interleaving of the two tasks, is a first part of the report of the round:
    -- its eight samples in the order of sending, each with the time of the event in nanoseconds and
    -- its own reading, NAN where a device could not be read. No sample is refused by the queue.
    pub published-prefix :
        (t : Station F Q)
        → Run fp service (wake fp service event r s) t
        → ((rest : List (Sample F)) × (t.published ++ rest
              ≡ s.published ++ report fp s.store event r))
          × (t.refused ≡ s.refused)
    published-prefix t run =
        let v =
          Run-OnTime fp service contents laws goal s.refused (wake fp service event r s) t run
            wake-OnTime in
        ((_, v.owes.owed), v.none_lost)

    -- A round that starts with a link when the rounds before have been published, and that has been
    -- drained itself, in any interleaving of the two tasks: what has been published of it is exactly
    -- its report, the eight samples in the order of sending, each with the time of the event in
    -- nanoseconds and its own reading, NAN where a device could not be read.
    pub published-report :
        (t : Station F Q)
        → Run fp service (wake fp service event r s) t
        → IsDrained t
        → t.published ≡ s.published ++ report fp s.store event r
    published-report t run done =
        let v =
          Run-OnTime fp service contents laws goal s.refused (wake fp service event r s) t run
            wake-OnTime in
        let all = rw (done.none_left, done.none_held, done.none_queued) at v.owes.owed in
        sym (append-nil t.published) ∙ all
