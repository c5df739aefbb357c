-- ===== src/Station/Passes.antt =====
-- src/main.c: passes of the sampling loop, each with its round of sampling and publishing.
use esp32_s3_i2c_mqtt_machba.Base.{ℕ, ◌≡◌, sym, ap, true, Option, some, List, [], ◌∷◌}
use esp32_s3_i2c_mqtt_machba.Esp.{Os, Tm}
use esp32_s3_i2c_mqtt_machba.Float.{Fp}
use esp32_s3_i2c_mqtt_machba.I2c.{Bus}
use esp32_s3_i2c_mqtt_machba.I2c.Action.{Outcome, ret, fail, aborted, out_of_fuel}
use esp32_s3_i2c_mqtt_machba.Interval.Handle.{
  Handle, time_into_interval_delay, time_into_interval_get_last_event,
}
use esp32_s3_i2c_mqtt_machba.Station.Sample.{Parameter}
use esp32_s3_i2c_mqtt_machba.Station.Queue.{QueueService, QueueLaws}
use esp32_s3_i2c_mqtt_machba.Station.Tasks.{Readings, Station, wake, Run}
use esp32_s3_i2c_mqtt_machba.Station.Rounds.{IsDrained}
use esp32_s3_i2c_mqtt_machba.Station.Measure.{Sensors, measure}
use esp32_s3_i2c_mqtt_machba.Station.Cycle.{Loop, with_event, sample_pass}

module _ {F D W Q : Type 0} (fp : Fp F D) (os : Os W) (bus : Bus W) (next_tm : Tm)
    (service : QueueService Q) (fuel : ℕ) where
  -- The passes that have led from a state of the loop and of the two tasks to another one, with the
  -- event and the readings of each. In a pass the sampling task waits, measures and sends all its
  -- samples, while the publishing task takes its steps in between in any order; what it has not
  -- published when the pass ends is still held or queued in the next one.
  pub data Passes (l' : Loop F D W) (s' : Station F Q)
      : List (ℕ × Readings F) → Loop F D W → Station F Q → Type 0 where
    end : Passes l' s' [] l' s'
    pass :
        {rest : List (ℕ × Readings F)} {l l₁ : Loop F D W} {s s₁ : Station F Q} (event : ℕ)
        (r : Readings F)
        → sample_pass fp os bus next_tm fuel s.mqtt_connected l ≡ (ret (some (event, r)), l₁)
        → Run fp service (wake fp service event r s) s₁
        → s₁.left ≡ []
        → Passes l' s' rest l₁ s₁
        → Passes l' s' ((event, r) ∷ rest) l s

module _ {F D W Q : Type 0} (fp : Fp F D) (os : Os W) (bus : Bus W) (next_tm : Tm)
    (service : QueueService Q) (contents : Q → List Parameter) (laws : QueueLaws service contents)
    (fuel : ℕ) where
  -- The publishing task keeps up: each round has been published when its pass ends.
  abbrev pub KeepsUp :
      {l' : Loop F D W} {s' : Station F Q} {past : List (ℕ × Readings F)} {l : Loop F D W}
      {s : Station F Q}
      → Passes fp os bus next_tm service fuel l' s' past l s
      → Type 0
  KeepsUp end = Unit
  KeepsUp (pass {s₁} event r measured run ended passes) =
      IsDrained fp service contents laws s₁ × KeepsUp passes

module _ {F D W : Type 0} (fp : Fp F D) (os : Os W) (bus : Bus W) (next_tm : Tm) where
  with_event-reported :
      (hdl : Option Handle) (event : ℕ) (m : Outcome (Readings F) × Sensors F D W) (event' : ℕ)
      (r : Readings F) (l : Loop F D W)
      → with_event fp os bus next_tm hdl event m ≡ (ret (some (event', r)), l)
      → (m ≡ (ret r, l.sensors)) × (event' ≡ event) × (l.tii_sampling_hdl ≡ hdl)
  with_event-reported hdl event (ret r', n) event' r l h =
      let sensors : n ≡ l.sensors = ap (λ q. q.1.sensors) h in
      let value : ret (some (event, r')) ≡ ret (some (event', r)) = ap (λ q. q.0) h in
      (cc (sensors, value), cc value, sym (ap (λ q. q.1.tii_sampling_hdl) h))
  with_event-reported hdl event (fail e, n) event' r l h = absurd (cc (ap (λ q. q.0) h))
  with_event-reported hdl event (aborted e, n) event' r l h = absurd (cc (ap (λ q. q.0) h))
  with_event-reported hdl event (out_of_fuel, n) event' r l h = absurd (cc (ap (λ q. q.0) h))

  -- The parts of a pass that has reported.
  pub sample_pass-reported :
      (fuel : ℕ) (l l' : Loop F D W) (event : ℕ) (r : Readings F)
      → sample_pass fp os bus next_tm fuel true l ≡ (ret (some (event, r)), l')
      → let d = time_into_interval_delay os next_tm l.tii_sampling_hdl l.sensors.world in
        let g = time_into_interval_get_last_event os next_tm d.1 l.epoch_timestamp d.2 in
        (measure fp os bus fuel (record l.sensors { world = g.2 }) ≡ (ret r, l'.sensors))
        × (event ≡ g.1)
        × (l'.tii_sampling_hdl ≡ d.1)
  unfolding sample_pass
  sample_pass-reported fuel l l' event r h =
      let d = time_into_interval_delay os next_tm l.tii_sampling_hdl l.sensors.world in
      let g = time_into_interval_get_last_event os next_tm d.1 l.epoch_timestamp d.2 in
      with_event-reported d.1 g.1 (measure fp os bus fuel (record l.sensors { world = g.2 })) event
        r l' h
