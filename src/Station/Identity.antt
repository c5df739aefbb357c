-- ===== src/Station/Identity.antt =====
-- The sample objects keep their device and their parameter.
use esp32_s3_i2c_mqtt_machba.Base.{
  ℕ, ◌≡◌, ◌∙◌, refl, inl, inr, Bool-cases, Option, none, some, List, [], ◌∷◌, ◌==◌,
}
use esp32_s3_i2c_mqtt_machba.Float.{Fp}
use esp32_s3_i2c_mqtt_machba.Station.Sample.{
  Parameter, parameter_number, Sample, Store, mqtt_net_device_id, write_sample,
}
use esp32_s3_i2c_mqtt_machba.Station.Queue.{QueueService}
use esp32_s3_i2c_mqtt_machba.Station.Tasks.{
  Readings, Statement, set_timestamp, set_value, send, Station, execute, sample_next, wake, receive,
  publish, Step, samples, receives, publishes, Run, start, step,
}

-- A sample object of the station, for a parameter.
pub record IsOf {F : Type 0} (p : Parameter) (x : Sample F) : Type 0 where
  pub own_device : x.device_id ≡ mqtt_net_device_id
  pub own_parameter : x.parameter ≡ p

abbrev pub Identified : {F : Type 0} → Store F → Type 0
Identified store = (p : Parameter) → IsOf p (store p)

write_sample-Identified :
    {F : Type 0} (p : Parameter) (f : Sample F → Sample F) (store : Store F)
    → ((x : Sample F) → (f x).device_id ≡ x.device_id)
    → ((x : Sample F) → (f x).parameter ≡ x.parameter)
    → Identified store
    → Identified (write_sample p f store)
unfolding write_sample
write_sample-Identified p f store device parameter h q =
    elim (Bool-cases (parameter_number p == parameter_number q)) [
      | inl e ↦ rw e (record {
        own_device = device (store q) ∙ (h q).own_device;
        own_parameter = parameter (store q) ∙ (h q).own_parameter;
      })
      | inr e ↦ rw e (h q)
    ]

module _ {F D Q : Type 0} (fp : Fp F D) (service : QueueService Q) where
  execute-Identified :
      (c : Statement F) (s : Station F Q)
      → Identified s.store
      → Identified (execute fp service c s).store
  unfolding execute
  execute-Identified (set_timestamp p t) s h =
      write_sample-Identified p _ s.store (λ x. refl) (λ x. refl) h
  execute-Identified (set_value p a) s h =
      write_sample-Identified p _ s.store (λ x. refl) (λ x. refl) h
  execute-Identified (send p) s h = elim (Bool-cases (service.x_queue_send p s.queue).0) [
    | inl e ↦ rw e h
    | inr e ↦ rw e h
  ]

  sample_next-Identified :
      (left : List (Statement F)) (s : Station F Q)
      → Identified s.store
      → Identified (sample_next fp service left s).store
  unfolding sample_next
  sample_next-Identified [] s h = h
  sample_next-Identified (c ∷ rest) s h = execute-Identified c (record s { left = rest }) h

  publish-Identified :
      (r : Option Parameter) (s : Station F Q)
      → Identified s.store
      → Identified (publish fp service r s).store
  unfolding publish
  publish-Identified none s h = h
  publish-Identified (some p) s h = elim (Bool-cases s.mqtt_connected) [
    | inl e ↦ rw e h
    | inr e ↦ rw e h
  ]

  pub wake-Identified :
      (event : ℕ) (r : Readings F) (s : Station F Q)
      → Identified s.store
      → Identified (wake fp service event r s).store
  unfolding wake
  wake-Identified event r s h = elim (Bool-cases s.mqtt_connected) [
    | inl e ↦ rw e h
    | inr e ↦ rw e h
  ]

  Step-Identified :
      (s t : Station F Q) → Step fp service s t → Identified s.store → Identified t.store
  unfolding receive
  Step-Identified s _ samples h = sample_next-Identified s.left s h
  Step-Identified s _ (receives e) h = h
  Step-Identified s _ publishes h = publish-Identified s.received s h

  pub Run-Identified :
      (s t : Station F Q) → Run fp service s t → Identified s.store → Identified t.store
  Run-Identified s _ start h = h
  Run-Identified s _ (step {t} {u} r st) h = Step-Identified t u st (Run-Identified s t r h)
