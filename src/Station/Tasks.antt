-- ===== src/Station/Tasks.antt =====
-- src/main.c: the loops of `sample_sensor_task` and `publish_sensor_task`, one statement at a time,
-- in any interleaving.
use esp32_s3_i2c_mqtt_machba.Base.{
  ℕ, ◌*◌, ◌≡◌, Bool, true, Option, none, some, List, [], ◌∷◌, ◌++◌, if◌then◌else◌,
}
use esp32_s3_i2c_mqtt_machba.Base.Word.{u64}
use esp32_s3_i2c_mqtt_machba.Float.{Fp}
use esp32_s3_i2c_mqtt_machba.Station.Sample.{
  Parameter, air_temperature, air_temperature_trend, dewpoint_temperature, relative_humidity,
  atmospheric_pressure, atmospheric_pressure_tendency, atmospheric_pressure_change,
  atmospheric_pressure_trend, Sample, Store, write_sample,
}
use esp32_s3_i2c_mqtt_machba.Station.Queue.{QueueService}

-- What the devices and the analyses report in a round of the sampling loop: `none` is a status other
-- than ESP_OK, the air temperature is `.0` of the measurements, the humidity `.1` and the dew point
-- `.2`, and a code is already converted to `float`.
pub record Readings (F : Type 0) : Type 0 where
  pub measurements : Option (F × F × F)
  pub temperature_trend : F
  pub pressure : Option F
  pub pressure_trend : F
  pub tendency : F
  pub change : F

-- The statements of the sampling loop that act on the samples and on the queue.
pub data Statement (F : Type 0) : Type 0 where
  set_timestamp : Parameter → ℕ → Statement F
  set_value : Parameter → F → Statement F
  send : Parameter → Statement F

module _ {F D : Type 0} (fp : Fp F D) where
  -- NAN in place of what could not be read.
  abbrev pub or_nan : {A : Type 0} → (A → F) → Option A → F
  or_nan f none = fp.f_nan
  or_nan f (some a) = f a

  -- The values of the AHTxx. What a call that fails has written before is overwritten at once.
  abbrev pub ahtxx_statements : Option (F × F × F) → List (Statement F)
  ahtxx_statements (some m) =
      set_value air_temperature m.0
      ∷ set_value relative_humidity m.1
      ∷ set_value dewpoint_temperature m.2
      ∷ []
  ahtxx_statements none =
      set_value air_temperature fp.f_nan
      ∷ set_value relative_humidity fp.f_nan
      ∷ set_value dewpoint_temperature fp.f_nan
      ∷ []

  -- The pressure in hPa.
  abbrev pub hecto : F → F
  hecto p = fp.f_div p (fp.narrow (fp.of_nat 100))

  -- The value of the BMP280, in Pa and then in hPa.
  abbrev pub bmp280_statements : Option F → List (Statement F)
  bmp280_statements (some p) =
      set_value atmospheric_pressure p ∷ set_value atmospheric_pressure (hecto p) ∷ []
  bmp280_statements none = set_value atmospheric_pressure fp.f_nan ∷ []

  -- The timestamps, in the order of the source.
  abbrev pub stamps : ℕ → List (Statement F)
  stamps t =
      set_timestamp air_temperature t
      ∷ set_timestamp dewpoint_temperature t
      ∷ set_timestamp relative_humidity t
      ∷ set_timestamp atmospheric_pressure t
      ∷ set_timestamp atmospheric_pressure_trend t
      ∷ set_timestamp atmospheric_pressure_tendency t
      ∷ set_timestamp atmospheric_pressure_change t
      ∷ set_timestamp air_temperature_trend t
      ∷ []

  -- The values, in the order of the source.
  abbrev pub values : Readings F → List (Statement F)
  values r =
      ahtxx_statements r.measurements
      ++ set_value air_temperature_trend r.temperature_trend ∷ bmp280_statements r.pressure
      ++ set_value atmospheric_pressure_trend r.pressure_trend
        ∷ set_value atmospheric_pressure_change r.change
        ∷ set_value atmospheric_pressure_tendency r.tendency
        ∷ []

  -- The sends, in the order of the source.
  abbrev pub sends : List (Statement F)
  sends =
      send air_temperature
      ∷ send air_temperature_trend
      ∷ send relative_humidity
      ∷ send dewpoint_temperature
      ∷ send atmospheric_pressure
      ∷ send atmospheric_pressure_trend
      ∷ send atmospheric_pressure_tendency
      ∷ send atmospheric_pressure_change
      ∷ []

  -- A round of the loop after the check of the link, for an event at this time in milliseconds.
  unfoldable pub round : ℕ → Readings F → List (Statement F)
  round event r = stamps (u64 (1000000 * event)) ++ values r ++ sends

-- The sample objects, the queue and the link; the statements that are left of the round of the
-- sampling task; the sample that the publishing task holds; the samples that it has handed to
-- `esp_mqtt_client_publish`, the parameters that the queue has taken and refused, oldest first; and
-- whether `esp_restart` has been called.
pub record Station (F Q : Type 0) : Type 0 where
  pub mqtt_connected : Bool
  pub store : Store F
  pub queue : Q
  pub left : List (Statement F)
  pub received : Option Parameter
  pub published : List (Sample F)
  pub accepted : List Parameter
  pub refused : List Parameter
  pub restarted : Bool

module _ {F D Q : Type 0} (fp : Fp F D) (service : QueueService Q) where
  -- A statement of the sampling task.
  unfoldable pub execute : Statement F → Station F Q → Station F Q
  execute (set_timestamp p t) s = record s {
    store = write_sample p (λ x. record x { timestamp = t }) s.store;
  }
  execute (set_value p v) s = record s {
    store = write_sample p (λ x. record x { value = v }) s.store;
  }
  execute (send p) s =
      let (taken, q) = service.x_queue_send p s.queue in
      if taken
      then record s { queue = q; accepted = s.accepted ++ p ∷ [] }
      else record s { queue = q; refused = s.refused ++ p ∷ [] }

  -- The next statement of the round.
  unfoldable pub sample_next : List (Statement F) → Station F Q → Station F Q
  sample_next [] s = s
  sample_next (c ∷ rest) s = execute c (record s { left = rest })

  -- The top of the sampling loop, once the delay is over: without a link the round is skipped.
  unfoldable pub wake : ℕ → Readings F → Station F Q → Station F Q
  wake event r s = if s.mqtt_connected then record s { left = round fp event r } else s

  -- `xQueueReceive` in the publishing task.
  unfoldable pub receive : Station F Q → Station F Q
  receive s =
      let (item, q) = service.x_queue_receive s.queue in record s { received = item; queue = q }

  -- The rest of the publishing loop, for what has been received.
  unfoldable pub publish : Option Parameter → Station F Q → Station F Q
  publish none s = s
  publish (some p) s =
      if s.mqtt_connected
      then record s { received = none; published = s.published ++ s.store p ∷ [] }
      else record s { restarted = true }

  -- A step of one of the two tasks within a round.
  pub data Step (s : Station F Q) : Station F Q → Type 0 where
    samples : Step s (sample_next s.left s)
    receives : s.received ≡ none → Step s (receive s)
    publishes : Step s (publish s.received s)

  -- Any number of steps, without another wake.
  pub data Run (s : Station F Q) : Station F Q → Type 0 where
    start : Run s s
    step : {t u : Station F Q} → Run s t → Step t u → Run s u

  -- The states from a first one on, with any wakes.
  pub data Reach (s : Station F Q) : Station F Q → Type 0 where
    here : Reach s s
    next : {t u : Station F Q} → Reach s t → Step t u → Reach s u
    wakes :
        {t : Station F Q} (event : ℕ) (r : Readings F)
        → Reach s t
        → t.left ≡ []
        → Reach s (wake event r t)
