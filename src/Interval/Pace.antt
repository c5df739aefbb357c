-- ===== src/Interval/Pace.antt =====
-- The distance between two events that a task waits for.
use esp32_s3_i2c_mqtt_machba.Base.{
  ℕ, zero, suc, ◌+◌, ◌*◌, ◌^◌, ◌≤◌, ◌<◌, ◌≡◌, ◌≢◌, ◌∙◌, refl, sym, ap, ⊤, Bool, true, false, none,
  some, inl, inr, ltb, ltb→lt, ltb_false→le, Bool-cases, arith, Option, length, ◌==◌,
}
use esp32_s3_i2c_mqtt_machba.Base.Int.{pos, leb_ℤ, ltb_ℤ}
use esp32_s3_i2c_mqtt_machba.Base.Word.{sub64, signed64}
use esp32_s3_i2c_mqtt_machba.Esp.{Tm, Os, is_ok}
use esp32_s3_i2c_mqtt_machba.Interval.Normalize.{
  IntervalType, normalize_interval_to_msec, normalize_interval_to_msec-lt,
}
use esp32_s3_i2c_mqtt_machba.Interval.Event.{get_epoch_timestamp_msec, set_epoch_timestamp_event}
use esp32_s3_i2c_mqtt_machba.Interval.Advance.{FirstAhead}
use esp32_s3_i2c_mqtt_machba.Interval.Schedule.{
  Accepts, clock_msec, start_msec, set_epoch_timestamp_event_first,
}
use esp32_s3_i2c_mqtt_machba.Interval.Handle.{
  Config, Handle, name_max_size, get_hash_code, interval_delta, init_handle, set_next_event,
  delay_until, time_into_interval_init, time_into_interval_delay, time_into_interval_get_last_event,
}
use esp32_s3_i2c_mqtt_machba.Interval.Wake.{
  IsAccepted, next_period, delay_until_ahead, delay_until_passed, delay-get_last_event,
  set_next_event-next,
}

-- The clock can always be read and does not go backwards from one reading to the next, and the
-- times of the clock and of `mktime` are below 2 ^ 62 milliseconds.
pub record ClockLaws {W : Type 0} (os : Os W) (next_tm : Tm) : Type 0 where
  pub is_read : (w : W) → (os.gettimeofday w).0 ≡ true
  pub forward : (w : W) → clock_msec os w ≤ clock_msec os (os.gettimeofday w).2
  pub clock_below : (w : W) → clock_msec os w < 2 ^ 62
  pub start_below :
      (t : IntervalType) (period : ℕ) (w : W) → start_msec os t period next_tm w < 2 ^ 62

abbrev pub period_msec : Handle → ℕ
period_msec h = normalize_interval_to_msec h.interval_type h.interval_period

-- A handle whose schedule has begun.
pub record IsScheduled (h : Handle) : Type 0 where
  pub accepted : IsAccepted h
  pub period_u16 : h.interval_period < 2 ^ 16
  pub set : 0 < h.epoch_timestamp
  pub below : h.epoch_timestamp < 2 ^ 63

-- A first event ahead of the clock is not far ahead of the clock or of the start.
pub FirstAhead-lt :
    (start period now : ℕ) {result : ℕ}
    → start < 2 ^ 62 + 2 ^ 34
    → period < 2 ^ 32
    → now < 2 ^ 62
    → FirstAhead start period now result
    → result < 2 ^ 63
FirstAhead-lt start period now {result} s p n f = bound f.steps f.reached f.earlier
  where
    bound :
        (steps : ℕ)
        → result ≡ start + steps * period
        → ((j : ℕ) → j < steps → start + j * period ≤ now)
        → result < 2 ^ 63
    bound zero reached earlier = omega arith
    bound (suc k) reached earlier = omega (arith, earlier k (omega arith))

module _ {W : Type 0} (os : Os W) (next_tm : Tm) where
  -- A wait changes nothing of a handle but its event.
  delay_until_fields :
      (h : Handle) (w : W)
      → let r = (delay_until os next_tm h w).0 in
        r ≡ record h { epoch_timestamp = r.epoch_timestamp }
  unfolding delay_until set_next_event
  delay_until_fields h w =
      let now = (get_epoch_timestamp_msec os (os.x_semaphore_take h.mutex_handle w)).0 in
      elim (Bool-cases (ltb_ℤ (signed64 (sub64 h.epoch_timestamp now)) (pos 0))) [
        | inl e ↦ rw e refl
        | inr e ↦ rw e refl
      ]

  module _ (laws : ClockLaws os next_tm) where
    -- The event that is awaited is that of the handle or a later one.
    delay_until_later :
        (h : Handle) (w : W)
        → IsScheduled h
        → let r = (delay_until os next_tm h w).0 in
          (h.epoch_timestamp ≤ r.epoch_timestamp) × (r.epoch_timestamp < 2 ^ 63)
    delay_until_later h w v =
        let w₀ = os.x_semaphore_take h.mutex_handle w in
        let w₁ = (os.gettimeofday w₀).2 in
        elim (Bool-cases (ltb h.epoch_timestamp (clock_msec os w₀))) [
          | inl past ↦
              let first =
                delay_until_passed os next_tm h w w₁ v.accepted v.period_u16 (ltb→lt _ _ past)
                  (laws.clock_below w₀) (laws.is_read w₀) refl (laws.clock_below w₁)
                  (laws.start_below h.interval_type h.interval_period w₁) in
              let below =
                FirstAhead-lt _ _ _
                  (omega (
                    arith,
                    laws.start_below h.interval_type h.interval_period w₁,
                    normalize_interval_to_msec-lt h.interval_type h.interval_period,
                    normalize_interval_to_msec-lt h.interval_type h.interval_offset,
                  ))
                  (normalize_interval_to_msec-lt h.interval_type h.interval_period)
                  (laws.clock_below w₁) first in
              (omega (arith, ltb→lt _ _ past, laws.forward w₀, first.ahead), below)
          | inr ahead ↦
              let (same, _) =
                delay_until_ahead os next_tm h w v.below (laws.is_read w₀)
                  (ltb_false→le _ _ ahead) in
              rw same (omega arith, v.below)
        ]

    -- A wait, and the last event after it: that event is not before the one that the handle had, and
    -- the handle then has the event one period after it.
    pub delay-IsScheduled :
        (h : Handle) (w w' : W) (out : ℕ)
        → IsScheduled h
        → let r = time_into_interval_delay os next_tm (some h) w in
          let last = (time_into_interval_get_last_event os next_tm r.1 out w').1 in
          (h.epoch_timestamp ≤ last)
          × (r.1 ≡ some (record h { epoch_timestamp = last + period_msec h }))
    unfolding time_into_interval_delay
    delay-IsScheduled h w w' out v =
        let (h₁, delay, w₁) = delay_until os next_tm h w in
        let (later, below) = delay_until_later h w v in
        let fields = delay_until_fields h w in
        let accepted : IsAccepted h₁ = rw fields v.accepted in
        let ne : h₁.epoch_timestamp ≢ 0 = omega (arith, later, v.set) in
        let (_, _, last) = delay-get_last_event os next_tm h w w' out accepted ne below in
        let w₂ = os.x_semaphore_take h.mutex_handle (os.v_task_delay delay w₁) in
        let next = set_next_event-next os next_tm h₁ w₂ accepted ne below in
        let moved : Handle → ℕ → Handle = λ g e. record g { epoch_timestamp = e + period_msec g } in
        (rw last later, ap some (next ∙ ap next_period fields ∙ ap (moved h) (sym last)))

module _ {W : Type 0} (os : Os W) (next_tm : Tm) where
  -- The event of a handle is the first one of its schedule, at some reading of the clock.
  abbrev pub HasBegun : Config → Handle → Type 0
  HasBegun config h =
      (w : W) × (h.epoch_timestamp
        ≡ (set_epoch_timestamp_event os config.interval_type config.interval_period
            config.interval_offset next_tm 0 w).1)

  abbrev pub BegunIfSome : Config → Option Handle → Type 0
  BegunIfSome config none = ⊤
  BegunIfSome config (some h) = HasBegun config h

  init_handle-HasBegun :
      (config : Config) (got : Bool × W)
      → BegunIfSome config (init_handle os next_tm config none got).1
  unfolding init_handle
  init_handle-HasBegun config (false, w) = tt
  init_handle-HasBegun config (true, w) =
      let w₁ = (get_hash_code os next_tm w).1 in
      let w₂ = (os.x_semaphore_create_mutex w₁).1 in
      let r =
        set_epoch_timestamp_event os config.interval_type config.interval_period
          config.interval_offset next_tm 0 w₂ in
      elim (Bool-cases (is_ok r.0)) [ inl e ↦ rw e (w₂, refl) | inr e ↦ rw e tt ]

  pub time_into_interval_init-HasBegun :
      (config : Config) (w : W)
      → BegunIfSome config (time_into_interval_init os next_tm config none w).1
  unfolding time_into_interval_init
  time_into_interval_init-HasBegun config w =
      elim (Bool-cases (ltb name_max_size (length config.name))) [
        | inl e ↦ rw e tt
        | inr e ↦ rw e (elim (Bool-cases (config.interval_period == 0)) [
          | inl e ↦ rw e tt
          | inr e ↦ rw e (elim (Bool-cases (leb_ℤ (interval_delta os next_tm config) (pos 0))) [
            | inl e ↦ rw e tt
            | inr e ↦ rw e (init_handle-HasBegun config (os.calloc w))
          ])
        ])
      ]

  -- A handle that has begun is set.
  pub HasBegun-IsScheduled :
      (config : Config) (h : Handle)
      → ClockLaws os next_tm
      → h.interval_type ≡ config.interval_type
      → h.interval_period ≡ config.interval_period
      → h.interval_offset ≡ config.interval_offset
      → config.interval_period < 2 ^ 16
      → IsAccepted h
      → HasBegun config h
      → IsScheduled h
  HasBegun-IsScheduled config h laws type period offset small accepted (w, begun) =
      let own : Accepts config.interval_type config.interval_period config.interval_offset =
        rw (type, period, offset) at accepted in
      let t = config.interval_type in
      let first =
        (set_epoch_timestamp_event_first os t config.interval_period config.interval_offset next_tm
          w small own (laws.clock_below w) (laws.start_below t config.interval_period w)).1 in
      let short = normalize_interval_to_msec-lt t config.interval_period in
      let start : start_msec os t config.interval_period next_tm w
            + normalize_interval_to_msec t config.interval_period
            + normalize_interval_to_msec t config.interval_offset
          < 2 ^ 62 + 2 ^ 34 =
        omega (
          arith,
          laws.start_below t config.interval_period w,
          short,
          normalize_interval_to_msec-lt t config.interval_offset,
        ) in
      record {
        accepted = accepted;
        period_u16 = rw period small;
        set = rw begun (omega (arith, first.ahead));
        below = rw begun (FirstAhead-lt _ _ _ start short (laws.clock_below w) first);
      }
