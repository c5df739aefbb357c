-- ===== src/Station/Lag.antt =====
-- What the publishing task publishes when it lags behind the sampling task.
use esp32_s3_i2c_mqtt_machba.Base.{ℕ, ◌*◌, ◌≡◌, refl, true, some, [], ◌∷◌, ◌++◌}
use esp32_s3_i2c_mqtt_machba.Base.Word.{u64}
use esp32_s3_i2c_mqtt_machba.Float.{Fp}
use esp32_s3_i2c_mqtt_machba.Station.Sample.{air_temperature, write_sample}
use esp32_s3_i2c_mqtt_machba.Station.Queue.{QueueService}
use esp32_s3_i2c_mqtt_machba.Station.Tasks.{
  Readings, Station, execute, sample_next, wake, publish, samples, publishes, Reach, here, next,
  wakes, round,
}

module _ {F D Q : Type 0} (fp : Fp F D) (service : QueueService Q) where
  -- When the publishing task still holds the air temperature of an earlier round as the next one
  -- starts, it can publish the time of the new round with the value of the earlier one.
  pub lagging-mixes :
      (event : ℕ) (r : Readings F) (s : Station F Q)
      → s.mqtt_connected ≡ true
      → s.left ≡ []
      → s.received ≡ some air_temperature
      → (t : Station F Q) × Reach fp service s t
        × (t.published
            ≡ s.published
              ++ record (s.store air_temperature) { timestamp = u64 (1000000 * event) } ∷ [])
  unfolding wake sample_next execute publish write_sample round
  lagging-mixes event r s on ended item =
      let w = wake fp service event r s in
      let u = sample_next fp service w.left w in
      (
        publish fp service u.received u,
        next (next (wakes event r here ended) samples) publishes,
        rw on (rw item refl),
      )
