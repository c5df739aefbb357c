-- ===== src/Interval/Schedule.antt =====
-- What `time_into_interval_set_epoch_timestamp_event` accepts, and the events that it computes.
use esp32_s3_i2c_mqtt_machba.Base.{
  ℕ, suc, ◌+◌, ◌*◌, ◌^◌, ◌≤◌, ◌<◌, ◌≡◌, ◌≢◌, ◌⊎◌, refl, arith, ltb, if◌then◌else◌,
}
use esp32_s3_i2c_mqtt_machba.Base.Word.{u64}
use esp32_s3_i2c_mqtt_machba.Esp.{esp_ok, esp_err_invalid_arg, Timeval, Tm, Os}
use esp32_s3_i2c_mqtt_machba.Interval.Normalize.{
  IntervalType, hr, normalize_interval_to_msec, normalize_interval_to_msec-pos,
  normalize_interval_to_msec-lt,
}
use esp32_s3_i2c_mqtt_machba.Interval.Event.{
  timeval_msec, exceed_next_tm, start_tm, first_event, set_epoch_timestamp_event,
}
use esp32_s3_i2c_mqtt_machba.Interval.Advance.{FirstAhead, advance-FirstAhead}

-- 28 days
abbrev pub max_period_msec : ℕ
max_period_msec = 28 * 24 * 60 * 60 * 1000

-- What the function requires of a period and an offset.
abbrev pub Accepts : IntervalType → ℕ → ℕ → Type 0
Accepts t period offset =
    (0 < period)
    × (normalize_interval_to_msec t period ≤ max_period_msec)
    × (normalize_interval_to_msec t period ≢ normalize_interval_to_msec t offset)

-- The ladder on the time-part timespan exceedance resets the minute and the second of a period over
-- 60 seconds and changes nothing else, for a period of any length: the branches for over 60 minutes
-- and over 24 hours are never taken.
pub exceed_next_tm_only_minutes :
    (period_msec : ℕ) (tm : Tm)
    → exceed_next_tm period_msec tm
      ≡ (if ltb 60000 period_msec then record tm { tm_min = 0; tm_sec = 0 } else tm)
unfolding exceed_next_tm
exceed_next_tm_only_minutes p tm = ground arith

module _ {W : Type 0} (os : Os W) where
  -- What the clock reads, in milli-seconds.
  abbrev pub clock_msec : W → ℕ
  clock_msec w = timeval_msec (os.gettimeofday w).1

  -- What `mktime` makes of the time parts from which a schedule starts, in milli-seconds.
  abbrev pub start_msec : IntervalType → ℕ → Tm → W → ℕ
  start_msec t period next_tm w =
      os.mktime (start_tm os t (normalize_interval_to_msec t period) next_tm (os.gettimeofday w).1)
      * 1000

  -- The three guards: either the period is not 0, its milli-seconds are at most 28 days and differ
  -- from the offset's, and the call succeeds; or one of these fails, and the call returns
  -- ESP_ERR_INVALID_ARG and changes neither the timestamp nor the world.
  pub set_epoch_timestamp_event_guards :
      (t : IntervalType) (period offset : ℕ) (next_tm : Tm) (epoch : ℕ) (w : W)
      → (Accepts t period offset
          × ((set_epoch_timestamp_event os t period offset next_tm epoch w).0 ≡ esp_ok))
        ⊎ ((¬ Accepts t period offset)
            × (set_epoch_timestamp_event os t period offset next_tm epoch w
                ≡ (esp_err_invalid_arg, epoch, w)))
  unfolding set_epoch_timestamp_event
  set_epoch_timestamp_event_guards t period offset next_tm epoch w =
      ground (arith, normalize_interval_to_msec-lt t period, normalize_interval_to_msec-lt t offset)

  -- An accepted call on a schedule that has begun moves the timestamp by exactly one period,
  -- whatever the clock reads.
  pub set_epoch_timestamp_event_next :
      (t : IntervalType) (period offset : ℕ) (next_tm : Tm) (epoch : ℕ) (w : W)
      → Accepts t period offset
      → epoch ≢ 0
      → epoch < 2 ^ 63
      → ((set_epoch_timestamp_event os t period offset next_tm epoch w).0 ≡ esp_ok)
        × ((set_epoch_timestamp_event os t period offset next_tm epoch w).1
            ≡ epoch + normalize_interval_to_msec t period)
  unfolding set_epoch_timestamp_event
  set_epoch_timestamp_event_next t period offset next_tm epoch w a ne lt =
      ground (arith, normalize_interval_to_msec-lt t period, normalize_interval_to_msec-lt t offset)

  pub set_epoch_timestamp_event_started :
      (t : IntervalType) (period offset : ℕ) (next_tm : Tm) (w : W)
      → Accepts t period offset
      → set_epoch_timestamp_event os t period offset next_tm 0 w ≡ (
        esp_ok,
        first_event os t
            (normalize_interval_to_msec t period)
            (normalize_interval_to_msec t offset)
            next_tm
            (os.gettimeofday w).1,
        (os.gettimeofday w).2,
      )
  unfolding set_epoch_timestamp_event
  set_epoch_timestamp_event_started t period offset next_tm w a =
      ground (arith, normalize_interval_to_msec-lt t period, normalize_interval_to_msec-lt t offset)

  first_event-FirstAhead :
      (t : IntervalType) (period_msec offset_msec : ℕ) (next_tm : Tm) (now_tv : Timeval)
      → 0 < period_msec
      → period_msec < 2 ^ 32
      → offset_msec < 2 ^ 32
      → timeval_msec now_tv < 2 ^ 62
      → os.mktime (start_tm os t period_msec next_tm now_tv) * 1000 < 2 ^ 62
      → FirstAhead
          (os.mktime (start_tm os t period_msec next_tm now_tv) * 1000 + period_msec + offset_msec)
          period_msec
          (timeval_msec now_tv)
          (first_event os t period_msec offset_msec next_tm now_tv)
  unfolding first_event
  first_event-FirstAhead t p o next_tm tv pos p32 o32 now start =
      let m = os.mktime (start_tm os t p next_tm tv) in
      let no_wrap : u64 (u64 (u64 (m * 1000) + p) + o) ≡ m * 1000 + p + o = omega arith in
      rw no_wrap (
        advance-FirstAhead (suc (timeval_msec tv)) p (timeval_msec tv) (m * 1000 + p + o) pos p32
          now (omega arith) (omega arith))

  -- A schedule that is started (timestamp 0): the event is the first one ahead of the clock among
  -- start + period + offset, + 2 period + offset, ..., where start is the local time that `mktime`
  -- gives, provided that the arguments are accepted and the times are below 2 ^ 62 milli-seconds.
  pub set_epoch_timestamp_event_first :
      (t : IntervalType) (period offset : ℕ) (next_tm : Tm) (w : W)
      → period < 2 ^ 16
      → Accepts t period offset
      → clock_msec w < 2 ^ 62
      → start_msec t period next_tm w < 2 ^ 62
      → ((set_epoch_timestamp_event os t period offset next_tm 0 w).0 ≡ esp_ok)
        × FirstAhead
            (start_msec t period next_tm w
              + normalize_interval_to_msec t period
              + normalize_interval_to_msec t offset)
            (normalize_interval_to_msec t period)
            (clock_msec w)
            (set_epoch_timestamp_event os t period offset next_tm 0 w).1
  set_epoch_timestamp_event_first t period offset next_tm w p16 a n s =
      rw (set_epoch_timestamp_event_started t period offset next_tm w a) (
        refl,
        first_event-FirstAhead t (normalize_interval_to_msec t period)
            (normalize_interval_to_msec t offset) next_tm (os.gettimeofday w).1
            (normalize_interval_to_msec-pos t period p16 a.0)
            (normalize_interval_to_msec-lt t period) (normalize_interval_to_msec-lt t offset) n s,
      )

  -- If the start is a multiple of the period, the first event is on the grid of the system clock:
  -- a multiple of the period plus the offset.
  pub set_epoch_timestamp_event_on_grid :
      (t : IntervalType) (period offset : ℕ) (next_tm : Tm) (w : W) (q : ℕ)
      → period < 2 ^ 16
      → Accepts t period offset
      → clock_msec w < 2 ^ 62
      → start_msec t period next_tm w < 2 ^ 62
      → start_msec t period next_tm w ≡ q * normalize_interval_to_msec t period
      → (n : ℕ) × ((set_epoch_timestamp_event os t period offset next_tm 0 w).1
          ≡ n * normalize_interval_to_msec t period + normalize_interval_to_msec t offset)
  set_epoch_timestamp_event_on_grid t period offset next_tm w q p16 a n s e =
      let f = (set_epoch_timestamp_event_first t period offset next_tm w p16 a n s).1 in
      (q + 1 + f.steps, omega (arith, f.reached))

-- The limit of 28 days is tested on milli-seconds that have wrapped: 1194 to 1865 hours (49 to 77
-- days) are accepted.
pub set_epoch_timestamp_event_over_28_days :
    {W : Type 0} (os : Os W) (hours : ℕ) (next_tm : Tm) (epoch : ℕ) (w : W)
    → 1194 ≤ hours
    → hours ≤ 1865
    → (max_period_msec < 3600000 * hours)
      × ((set_epoch_timestamp_event os hr hours 0 next_tm epoch w).0 ≡ esp_ok)
unfolding normalize_interval_to_msec
set_epoch_timestamp_event_over_28_days os hours next_tm epoch w lo hi =
    (omega arith, ground (arith, set_epoch_timestamp_event_guards os hr hours 0 next_tm epoch w))
