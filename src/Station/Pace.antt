-- ===== src/Station/Pace.antt =====
-- The distance between the events that the station reports.
use esp32_s3_i2c_mqtt_machba.Base.{
  ℕ, ◌^◌, ◌+◌, ◌≤◌, ◌<◌, ◌≡◌, refl, ap, Bool, true, false, some, List, arith,
}
use esp32_s3_i2c_mqtt_machba.Esp.{Os, Tm}
use esp32_s3_i2c_mqtt_machba.Float.{Fp}
use esp32_s3_i2c_mqtt_machba.I2c.{Bus}
use esp32_s3_i2c_mqtt_machba.I2c.Action.{ret}
use esp32_s3_i2c_mqtt_machba.Interval.Normalize.{normalize_interval_to_msec-lt}
use esp32_s3_i2c_mqtt_machba.Interval.Handle.{
  Handle, time_into_interval_delay, time_into_interval_get_last_event,
}
use esp32_s3_i2c_mqtt_machba.Interval.Pace.{ClockLaws, IsScheduled, period_msec, delay-IsScheduled}
use esp32_s3_i2c_mqtt_machba.Station.Queue.{QueueService}
use esp32_s3_i2c_mqtt_machba.Station.Tasks.{Readings, Station}
use esp32_s3_i2c_mqtt_machba.Station.Cycle.{Loop, sample_pass}
use esp32_s3_i2c_mqtt_machba.Station.Log.{AreApart, EventsBelow}
use esp32_s3_i2c_mqtt_machba.Station.Passes.{Passes, end, pass, sample_pass-reported}

module _ {F D W : Type 0} (fp : Fp F D) (os : Os W) (bus : Bus W) (next_tm : Tm) where
  -- A pass that has reported had a link.
  sample_pass-connected :
      (fuel : ℕ) (on : Bool) (l l' : Loop F D W) (event : ℕ) (r : Readings F)
      → sample_pass fp os bus next_tm fuel on l ≡ (ret (some (event, r)), l')
      → on ≡ true
  unfolding sample_pass
  sample_pass-connected fuel true l l' event r h = refl
  sample_pass-connected fuel false l l' event r h = absurd (cc (ap (λ q. q.0) h))

  -- A pass that has reported has moved its handle one period beyond the event that it reports.
  sample_pass-IsScheduled :
      (fuel : ℕ) (l l' : Loop F D W) (event : ℕ) (r : Readings F) (h : Handle)
      → ClockLaws os next_tm
      → l.tii_sampling_hdl ≡ some h
      → IsScheduled h
      → event < 2 ^ 62
      → sample_pass fp os bus next_tm fuel true l ≡ (ret (some (event, r)), l')
      → let h' : Handle = record h { epoch_timestamp = event + period_msec h } in
        (h.epoch_timestamp ≤ event) × (l'.tii_sampling_hdl ≡ some h') × IsScheduled h'
  sample_pass-IsScheduled fuel l l' event r h laws there v below measured =
      let (_, reported, handle) =
        sample_pass-reported fp os bus next_tm fuel l l' event r measured in
      let w = l.sensors.world in
      let d = time_into_interval_delay os next_tm (some h) w in
      let (later, moved) = delay-IsScheduled os next_tm laws h w d.2 l.epoch_timestamp v in
      let last = (time_into_interval_get_last_event os next_tm d.1 l.epoch_timestamp d.2).1 in
      let same : event ≡ last = rw there at reported in
      let kept : l'.tii_sampling_hdl ≡ d.1 = rw there at handle in
      let first : h.epoch_timestamp ≤ event = omega (arith, later, same) in
      (
        first,
        rw (kept, same) moved,
        record {
          accepted = v.accepted;
          period_u16 = v.period_u16;
          set = omega (arith, first, v.set);
          below =
              omega (arith, below, normalize_interval_to_msec-lt h.interval_type h.interval_period);
        },
      )

module _ {F D W Q : Type 0} (fp : Fp F D) (os : Os W) (bus : Bus W) (next_tm : Tm)
    (service : QueueService Q) (fuel : ℕ) (clock : ClockLaws os next_tm) where
  -- The events that passes report are at or after the one that the handle was set to, and each is at
  -- least one period after the one before, also where a late pass has started the schedule anew.
  pub Passes-AreApart :
      (l' : Loop F D W) (s' : Station F Q) (past : List (ℕ × Readings F)) (l : Loop F D W)
      (s : Station F Q) (h : Handle)
      → l.tii_sampling_hdl ≡ some h
      → IsScheduled h
      → EventsBelow (2 ^ 62) past
      → Passes fp os bus next_tm service fuel l' s' past l s
      → AreApart (period_msec h) h.epoch_timestamp past
  Passes-AreApart l' s' _ _ _ h there v below end = tt
  Passes-AreApart l' s' _ l s h there v below
        (pass {rest} {l₁} {s₁} event r measured run ended passes) =
      let on =
        sample_pass-connected fp os bus next_tm fuel s.mqtt_connected l l₁ event r measured in
      let (first, there₁, v₁) =
        sample_pass-IsScheduled fp os bus next_tm fuel l l₁ event r h clock there v below.0
          (rw on at measured) in
      let h₁ : Handle = record h { epoch_timestamp = event + period_msec h } in
      (first, Passes-AreApart l' s' rest l₁ s₁ h₁ there₁ v₁ below.1 passes)
