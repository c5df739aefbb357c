-- ===== src/Interval/Event.antt =====
-- time_into_interval.c: the system clock, and the epoch of the next event.
use esp32_s3_i2c_mqtt_machba.Base.{
  ℕ, zero, suc, ◌+◌, ◌*◌, ◌/◌, Bool, true, false, ltb, ◌==◌, if◌then◌else◌,
}
use esp32_s3_i2c_mqtt_machba.Base.Int.{pos, leb_ℤ}
use esp32_s3_i2c_mqtt_machba.Base.Word.{u64, sub64, signed64}
use esp32_s3_i2c_mqtt_machba.Esp.{EspErr, esp_ok, esp_err_invalid_arg, Timeval, Tm, Os}
use esp32_s3_i2c_mqtt_machba.Interval.Normalize.{
  IntervalType, sec, min, hr, normalize_interval_to_msec,
}

-- Milli-seconds since the epoch.
unfoldable pub timeval_msec : Timeval → ℕ
timeval_msec tv = u64 (u64 (tv.tv_sec * 1000) + tv.tv_usec / 1000)

-- The first `switch`: the time parts of the enclosing minute, hour or day. What `next` holds
-- besides is left as it was.
unfoldable pub init_next_tm : IntervalType → Tm → Tm → Tm
init_next_tm sec now next = record next {
  tm_year = now.tm_year;
  tm_mon = now.tm_mon;
  tm_mday = now.tm_mday;
  tm_hour = now.tm_hour;
  tm_min = now.tm_min;
  tm_sec = 0;
}
init_next_tm min now next = record next {
  tm_year = now.tm_year;
  tm_mon = now.tm_mon;
  tm_mday = now.tm_mday;
  tm_hour = now.tm_hour;
  tm_min = 0;
  tm_sec = 0;
}
init_next_tm hr now next = record next {
  tm_year = now.tm_year;
  tm_mon = now.tm_mon;
  tm_mday = now.tm_mday;
  tm_hour = 0;
  tm_min = 0;
  tm_sec = 0;
}

-- The ladder on the time-part timespan exceedance.
unfoldable pub exceed_next_tm : ℕ → Tm → Tm
exceed_next_tm period_msec next =
    if ltb (60 * 1000) period_msec
    then record next { tm_min = 0; tm_sec = 0 }
    else if ltb (60 * 60 * 1000) period_msec
    then record next { tm_hour = 0; tm_min = 0; tm_sec = 0 }
    else if ltb (24 * 60 * 60 * 1000) period_msec
    then record next { tm_mday = 0; tm_hour = 0; tm_min = 0; tm_sec = 0 }
    else next

-- `delta_time_msec <= 0`
unfoldable pub not_ahead : ℕ → ℕ → Bool
not_ahead next now = leb_ℤ (signed64 (sub64 next now)) (pos 0)

-- `if(delta <= 0) do { next += period; delta = next - now; } while(delta <= 0)`, on fuel.
unfoldable pub advance : ℕ → ℕ → ℕ → ℕ → ℕ
unfolding not_ahead
advance zero period now next = next
advance (suc fuel) period now next = elim (not_ahead next now) [
  | true ↦ advance fuel period now (u64 (next + period))
  | false ↦ next
]

module _ {W : Type 0} (os : Os W) where
  -- `time_into_interval_get_epoch_timestamp`
  unfoldable pub get_epoch_timestamp : W → ℕ × W
  get_epoch_timestamp w =
      let (ok, tv, w') = os.gettimeofday w in (if ok then u64 tv.tv_sec else 0, w')

  -- `time_into_interval_get_epoch_timestamp_msec`
  unfoldable pub get_epoch_timestamp_msec : W → ℕ × W
  get_epoch_timestamp_msec w =
      let (ok, tv, w') = os.gettimeofday w in (if ok then timeval_msec tv else 0, w')

  -- `time_into_interval_get_epoch_timestamp_usec`
  unfoldable pub get_epoch_timestamp_usec : W → ℕ × W
  get_epoch_timestamp_usec w =
      let (ok, tv, w') = os.gettimeofday w in
      (if ok then u64 (u64 (tv.tv_sec * 1000000) + tv.tv_usec) else 0, w')

  -- The time parts from which a schedule starts: `next_tm` is the uninitialised variable of the
  -- source.
  unfoldable pub start_tm : IntervalType → ℕ → Tm → Timeval → Tm
  unfolding init_next_tm exceed_next_tm
  start_tm t period_msec next_tm now_tv =
      exceed_next_tm period_msec (init_next_tm t (os.localtime_r now_tv.tv_sec) next_tm)

  -- The first event of a schedule, after the start and at the first multiple of the period that is
  -- ahead of the clock. The loop has one round of fuel for each milli-second of the clock, and one.
  unfoldable pub first_event : IntervalType → ℕ → ℕ → Tm → Timeval → ℕ
  unfolding start_tm advance
  first_event t period_msec offset_msec next_tm now_tv =
      let next_msec = u64 (os.mktime (start_tm t period_msec next_tm now_tv) * 1000) in
      advance (suc (timeval_msec now_tv)) period_msec (timeval_msec now_tv)
        (u64 (u64 (next_msec + period_msec) + offset_msec))

  -- `time_into_interval_set_epoch_timestamp_event`: the status, and what `*epoch_timestamp` holds.
  unfoldable pub set_epoch_timestamp_event : IntervalType → ℕ → ℕ → Tm → ℕ → W → EspErr × ℕ × W
  set_epoch_timestamp_event t interval_period interval_offset next_tm epoch w =
      let period_msec = normalize_interval_to_msec t interval_period in
      let offset_msec = normalize_interval_to_msec t interval_offset in
      if interval_period == 0
      then (esp_err_invalid_arg, epoch, w)
      else if ltb (28 * 24 * 60 * 60 * 1000) period_msec
      then (esp_err_invalid_arg, epoch, w)
      else if sub64 period_msec offset_msec == 0
      then (esp_err_invalid_arg, epoch, w)
      else let (_, now_tv, w') = os.gettimeofday w in
        if epoch == 0
        then (esp_ok, first_event t period_msec offset_msec next_tm now_tv, w')
        else (esp_ok, u64 (epoch + period_msec), w')
