-- ===== src/Interval/Locks.antt =====
-- The lock of a handle.
use esp32_s3_i2c_mqtt_machba.Base.{ℕ, suc, ◌-◌, ◌≡◌, some, inl, inr, Bool-cases, arith}
use esp32_s3_i2c_mqtt_machba.Base.Int.{pos, leb_ℤ, ltb_ℤ}
use esp32_s3_i2c_mqtt_machba.Base.Word.{sub64, signed64}
use esp32_s3_i2c_mqtt_machba.Esp.{Tm, Os}
use esp32_s3_i2c_mqtt_machba.Interval.Event.{get_epoch_timestamp_msec, set_epoch_timestamp_event}
use esp32_s3_i2c_mqtt_machba.Interval.Normalize.{IntervalType}
use esp32_s3_i2c_mqtt_machba.Interval.Handle.{
  Handle, set_next_event, delay_until, time_into_interval, time_into_interval_delay,
  time_into_interval_get_last_event,
}

-- What the services do to the number of times that a mutex is held.
pub record LockLaws {W : Type 0} (os : Os W) (held : ℕ → W → ℕ) : Type 0 where
  pub taken : (m : ℕ) (w : W) → held m (os.x_semaphore_take m w) ≡ suc (held m w)
  pub given : (m : ℕ) (w : W) → held m (os.x_semaphore_give m w) ≡ held m w - 1
  pub clock_keeps : (m : ℕ) (w : W) → held m (os.gettimeofday w).2 ≡ held m w
  pub delay_keeps : (m ticks : ℕ) (w : W) → held m (os.v_task_delay ticks w) ≡ held m w

module _ {W : Type 0} (os : Os W) (next_tm : Tm) (held : ℕ → W → ℕ) (laws : LockLaws os held) where
  held-set_epoch_timestamp_event :
      (m : ℕ) (t : IntervalType) (period offset epoch : ℕ) (w : W)
      → held m (set_epoch_timestamp_event os t period offset next_tm epoch w).2 ≡ held m w
  unfolding set_epoch_timestamp_event
  held-set_epoch_timestamp_event m t period offset epoch w = ground (arith, laws.clock_keeps m w)

  held-set_next_event :
      (m : ℕ) (h : Handle) (w : W) → held m (set_next_event os next_tm h w).1 ≡ held m w
  unfolding set_next_event
  held-set_next_event m h w =
      held-set_epoch_timestamp_event m h.interval_type h.interval_period h.interval_offset
        h.epoch_timestamp w

  held-get_epoch_timestamp_msec :
      (m : ℕ) (w : W) → held m (get_epoch_timestamp_msec os w).1 ≡ held m w
  unfolding get_epoch_timestamp_msec
  held-get_epoch_timestamp_msec m w = laws.clock_keeps m w

  -- The first lock of a wait.
  held-delay_until :
      (h : Handle) (w : W)
      → held h.mutex_handle (delay_until os next_tm h w).2 ≡ held h.mutex_handle w
  unfolding delay_until
  held-delay_until h w =
      let m = h.mutex_handle in
      let w₀ = os.x_semaphore_take m w in
      let (now, w₁) = get_epoch_timestamp_msec os w₀ in
      let taken = laws.taken m w in
      let read = held-get_epoch_timestamp_msec m w₀ in
      let anew = record h { epoch_timestamp = 0 } in
      let w₂ = (set_next_event os next_tm anew w₁).1 in
      let set = held-set_next_event m anew w₁ in
      elim (Bool-cases (ltb_ℤ (signed64 (sub64 h.epoch_timestamp now)) (pos 0))) [
        | inl e ↦ rw e (omega (arith, taken, read, set, laws.given m w₂))
        | inr e ↦ rw e (omega (arith, taken, read, laws.given m w₁))
      ]

  held-time_into_interval :
      (h : Handle) (w : W)
      → held h.mutex_handle (time_into_interval os next_tm (some h) w).2 ≡ held h.mutex_handle w
  unfolding time_into_interval
  held-time_into_interval h w =
      let m = h.mutex_handle in
      let w₀ = os.x_semaphore_take m w in
      let (now, w₁) = get_epoch_timestamp_msec os w₀ in
      let taken = laws.taken m w in
      let read = held-get_epoch_timestamp_msec m w₀ in
      let w₂ = (set_next_event os next_tm h w₁).1 in
      let set = held-set_next_event m h w₁ in
      elim (Bool-cases (leb_ℤ (signed64 (sub64 h.epoch_timestamp now)) (pos 0))) [
        | inl e ↦ rw e (omega (arith, taken, read, set, laws.given m w₂))
        | inr e ↦ rw e (omega (arith, taken, read, laws.given m w₁))
      ]

  held-time_into_interval_delay :
      (h : Handle) (w : W)
      → held h.mutex_handle (time_into_interval_delay os next_tm (some h) w).2
        ≡ held h.mutex_handle w
  unfolding time_into_interval_delay
  held-time_into_interval_delay h w =
      let m = h.mutex_handle in
      let (h₁, delay, w₁) = delay_until os next_tm h w in
      let w₂ = os.v_task_delay delay w₁ in
      let w₃ = os.x_semaphore_take m w₂ in
      let w₄ = (set_next_event os next_tm h₁ w₃).1 in
      omega (
        arith,
        held-delay_until h w,
        laws.delay_keeps m delay w₁,
        laws.taken m w₂,
        held-set_next_event m h₁ w₃,
        laws.given m w₄,
      )

  -- Every operation on a handle has given its lock back when it returns, on each of its paths; and
  -- a wait does not hold the lock while the task is delayed.
  pub operations-give_back :
      (h : Handle) (w : W) (out : ℕ)
      → let m = h.mutex_handle in
        (held m (time_into_interval os next_tm (some h) w).2 ≡ held m w)
        × (held m (time_into_interval_delay os next_tm (some h) w).2 ≡ held m w)
        × (held m (time_into_interval_get_last_event os next_tm (some h) out w).2 ≡ held m w)
        × (held m (delay_until os next_tm h w).2 ≡ held m w)
  unfolding time_into_interval_get_last_event
  operations-give_back h w out =
      let m = h.mutex_handle in
      (
        held-time_into_interval h w,
        held-time_into_interval_delay h w,
        omega (arith, laws.taken m w, laws.given m (os.x_semaphore_take m w)),
        held-delay_until h w,
      )
