-- ===== src/Interval/Wake.antt =====
-- The operations on a handle that has been initialized: polling, waiting, and the last event.
use esp32_s3_i2c_mqtt_machba.Base.{
  ℕ, ◌+◌, ◌-◌, ◌/◌, ◌^◌, ◌≤◌, ◌<◌, ◌≡◌, ◌≢◌, refl, true, some, arith, if◌then◌else◌, leb, lt→ltb,
}
use esp32_s3_i2c_mqtt_machba.Base.Int.{div_ℤ-pos, mod_ℤ}
use esp32_s3_i2c_mqtt_machba.Base.Word.{
  u32, signed64-sub64_ahead, leb_ℤ-signed64-sub64, ltb_ℤ-signed64-sub64,
}
use esp32_s3_i2c_mqtt_machba.Esp.{esp_ok, Tm, Os}
use esp32_s3_i2c_mqtt_machba.Interval.Normalize.{
  normalize_interval_to_msec, normalize_interval_to_msec-lt,
}
use esp32_s3_i2c_mqtt_machba.Interval.Event.{get_epoch_timestamp_msec}
use esp32_s3_i2c_mqtt_machba.Interval.Advance.{FirstAhead}
use esp32_s3_i2c_mqtt_machba.Interval.Schedule.{
  Accepts, clock_msec, start_msec, set_epoch_timestamp_event_next, set_epoch_timestamp_event_first,
}
use esp32_s3_i2c_mqtt_machba.Interval.Handle.{
  Handle, ticks_until, set_next_event, time_into_interval, delay_until, time_into_interval_delay,
  time_into_interval_get_last_event,
}

-- The handle whose event is the next one.
abbrev pub next_period : Handle → Handle
next_period h = record h {
  epoch_timestamp =
      h.epoch_timestamp + normalize_interval_to_msec h.interval_type h.interval_period;
}

abbrev pub IsAccepted : Handle → Type 0
IsAccepted h = Accepts h.interval_type h.interval_period h.interval_offset

ticks_until_ahead :
    (tick epoch now : ℕ)
    → epoch < 2 ^ 63
    → now ≤ epoch
    → ticks_until tick epoch now ≡ u32 ((epoch - now) / tick)
unfolding ticks_until mod_ℤ
ticks_until_ahead tick epoch now lt le = rw (signed64-sub64_ahead epoch now lt le) (rw div_ℤ-pos)

module _ {W : Type 0} (os : Os W) (next_tm : Tm) where
  pub set_next_event-next :
      (h : Handle) (w : W)
      → IsAccepted h
      → h.epoch_timestamp ≢ 0
      → h.epoch_timestamp < 2 ^ 63
      → (set_next_event os next_tm h w).0 ≡ next_period h
  unfolding set_next_event
  set_next_event-next h w a ne lt =
      let next =
        set_epoch_timestamp_event_next os h.interval_type h.interval_period h.interval_offset
          next_tm h.epoch_timestamp w a ne lt in
      rw next.1

  get_epoch_timestamp_msec-clock :
      (w : W) → (os.gettimeofday w).0 ≡ true → (get_epoch_timestamp_msec os w).0 ≡ clock_msec os w
  unfolding get_epoch_timestamp_msec
  get_epoch_timestamp_msec-clock w ok = rw ok

  get_epoch_timestamp_msec-world :
      (w : W) → (get_epoch_timestamp_msec os w).1 ≡ (os.gettimeofday w).2
  unfolding get_epoch_timestamp_msec
  get_epoch_timestamp_msec-world w = refl

  -- A poll tells whether the event's time has come. If it has, the next event is exactly one period
  -- later, however late the poll was; if it has not, the handle is unchanged.
  pub time_into_interval_lem :
      (h : Handle) (w : W)
      → IsAccepted h
      → h.epoch_timestamp ≢ 0
      → h.epoch_timestamp < 2 ^ 63
      → (os.gettimeofday (os.x_semaphore_take h.mutex_handle w)).0 ≡ true
      → clock_msec os (os.x_semaphore_take h.mutex_handle w) < 2 ^ 63
      → let r = time_into_interval os next_tm (some h) w in
        let due = leb h.epoch_timestamp (clock_msec os (os.x_semaphore_take h.mutex_handle w)) in
        (r.0 ≡ due) × (r.1 ≡ some (if due then next_period h else h))
  unfolding time_into_interval
  time_into_interval_lem h w a ne lt ok now =
      let w₁ = os.x_semaphore_take h.mutex_handle w in
      rw (get_epoch_timestamp_msec-clock w₁ ok) (
        rw (leb_ℤ-signed64-sub64 h.epoch_timestamp (clock_msec os w₁) lt now)
          (ground (arith, set_next_event-next h (get_epoch_timestamp_msec os w₁).1 a ne lt)))

  -- A wait for an event that is not past is for that event, and as long as the clock lacks to it, in
  -- whole ticks.
  pub delay_until_ahead :
      (h : Handle) (w : W)
      → h.epoch_timestamp < 2 ^ 63
      → (os.gettimeofday (os.x_semaphore_take h.mutex_handle w)).0 ≡ true
      → clock_msec os (os.x_semaphore_take h.mutex_handle w) ≤ h.epoch_timestamp
      → let r = delay_until os next_tm h w in
        (r.0 ≡ h)
        × (r.1
            ≡ u32 (
                (h.epoch_timestamp - clock_msec os (os.x_semaphore_take h.mutex_handle w))
                / os.port_tick_period_ms))
  unfolding delay_until
  delay_until_ahead h w lt ok ahead =
      let w₁ = os.x_semaphore_take h.mutex_handle w in
      rw (get_epoch_timestamp_msec-clock w₁ ok) (
        rw (ltb_ℤ-signed64-sub64 h.epoch_timestamp (clock_msec os w₁) lt (omega arith)) (
          ground (
            arith,
            ticks_until_ahead os.port_tick_period_ms h.epoch_timestamp (clock_msec os w₁) lt ahead,
          )))

  -- A wait for an event that is past starts the schedule anew: it is for the first event of the
  -- schedule that lies ahead of the clock, which is read once more.
  pub delay_until_passed :
      (h : Handle) (w w₁ : W)
      → IsAccepted h
      → h.interval_period < 2 ^ 16
      → h.epoch_timestamp < clock_msec os (os.x_semaphore_take h.mutex_handle w)
      → clock_msec os (os.x_semaphore_take h.mutex_handle w) < 2 ^ 62
      → (os.gettimeofday (os.x_semaphore_take h.mutex_handle w)).0 ≡ true
      → (os.gettimeofday (os.x_semaphore_take h.mutex_handle w)).2 ≡ w₁
      → clock_msec os w₁ < 2 ^ 62
      → start_msec os h.interval_type h.interval_period next_tm w₁ < 2 ^ 62
      → FirstAhead
          (start_msec os h.interval_type h.interval_period next_tm w₁
            + normalize_interval_to_msec h.interval_type h.interval_period
            + normalize_interval_to_msec h.interval_type h.interval_offset)
          (normalize_interval_to_msec h.interval_type h.interval_period)
          (clock_msec os w₁)
          (delay_until os next_tm h w).0.epoch_timestamp
  unfolding delay_until set_next_event
  delay_until_passed h w w₁ a p16 past now ok e now₁ start =
      let w₀ = os.x_semaphore_take h.mutex_handle w in
      rw (get_epoch_timestamp_msec-clock w₀ ok) (
        rw (ltb_ℤ-signed64-sub64 h.epoch_timestamp (clock_msec os w₀) (omega arith) (omega arith)) (
          rw (lt→ltb h.epoch_timestamp (clock_msec os w₀) past) (
            rw (get_epoch_timestamp_msec-world w₀, e)
              (set_epoch_timestamp_event_first os h.interval_type h.interval_period
                h.interval_offset next_tm w₁ p16 a now₁ start).1)))

  -- After a wait, the last event of the handle is the event that was waited for.
  pub delay-get_last_event :
      (h : Handle) (w w' : W) (out : ℕ)
      → IsAccepted (delay_until os next_tm h w).0
      → (delay_until os next_tm h w).0.epoch_timestamp ≢ 0
      → (delay_until os next_tm h w).0.epoch_timestamp < 2 ^ 63
      → let r = time_into_interval_delay os next_tm (some h) w in
        (r.0 ≡ esp_ok)
        × ((time_into_interval_get_last_event os next_tm r.1 out w').0 ≡ esp_ok)
        × ((time_into_interval_get_last_event os next_tm r.1 out w').1
            ≡ (delay_until os next_tm h w).0.epoch_timestamp)
  unfolding time_into_interval_delay time_into_interval_get_last_event
  delay-get_last_event h w w' out a ne lt =
      let (h₁, delay, w₁) = delay_until os next_tm h w in
      let w₂ = os.x_semaphore_take h.mutex_handle (os.v_task_delay delay w₁) in
      rw (set_next_event-next h₁ w₂ a ne lt) (
        refl,
        refl,
        omega (arith, normalize_interval_to_msec-lt h₁.interval_type h₁.interval_period),
      )
