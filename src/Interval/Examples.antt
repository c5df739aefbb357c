-- ===== src/Interval/Examples.antt =====
-- Concrete runs of the time-into-interval functions, and the theorems at concrete inputs.
use esp32_s3_i2c_mqtt_machba.Base.{
  ℕ, suc, ◌+◌, ◌-◌, ◌*◌, ◌^◌, ◌<◌, ◌≡◌, ◌⊎◌, refl, true, some, [], ◌∷◌, arith, if◌then◌else◌, leb,
  ltb,
}
use esp32_s3_i2c_mqtt_machba.Esp.{esp_ok, esp_err_invalid_arg, Tm, Os, HeapLaws}
use esp32_s3_i2c_mqtt_machba.Interval.Normalize.{sec, hr, normalize_interval_to_msec}
use esp32_s3_i2c_mqtt_machba.Interval.Event.{
  set_epoch_timestamp_event, first_event, start_tm, exceed_next_tm, timeval_msec,
}
use esp32_s3_i2c_mqtt_machba.Interval.Handle.{
  Config, Handle, time_into_interval, delay_until, time_into_interval_delay,
  time_into_interval_get_last_event,
}
use esp32_s3_i2c_mqtt_machba.Interval.Advance.{FirstAhead}
use esp32_s3_i2c_mqtt_machba.Interval.Schedule.{
  Accepts, max_period_msec, clock_msec, start_msec, exceed_next_tm_only_minutes,
  set_epoch_timestamp_event_guards, set_epoch_timestamp_event_first,
  set_epoch_timestamp_event_on_grid, set_epoch_timestamp_event_over_28_days,
}
use esp32_s3_i2c_mqtt_machba.Interval.Locks.{LockLaws, operations-give_back}
use esp32_s3_i2c_mqtt_machba.Interval.Wake.{next_period, time_into_interval_lem, delay_until_passed}

-- A world that counts the blocks on the heap. Its clock stands at 1000 s and 250 ms, its local time
-- is the minute and second of the day.
abbrev clock_os : Os ℕ
clock_os = record {
  gettimeofday = λ n. (true, record { tv_sec = 1000; tv_usec = 250000 }, n);
  localtime_r = λ t. record {
    tm_sec = 40;
    tm_min = 16;
    tm_hour = 0;
    tm_mday = 1;
    tm_mon = 0;
    tm_year = 70;
    tm_isdst = 0;
  };
  mktime = λ tm. tm.tm_hour * 3600 + tm.tm_min * 60 + tm.tm_sec;
  calloc = λ n. (true, n + 1);
  free = λ n. n - 1;
  x_semaphore_create_mutex = λ n. (7, n);
  x_semaphore_take = λ _ n. n;
  x_semaphore_give = λ _ n. n;
  v_task_delay = λ _ n. n;
  port_tick_period_ms = 10;
}

abbrev stale_tm : Tm
stale_tm = record {
  tm_sec = 5;
  tm_min = 5;
  tm_hour = 5;
  tm_mday = 5;
  tm_mon = 5;
  tm_year = 5;
  tm_isdst = 5;
}

-- Every 6 seconds: the next event after 1000.25 s is at 1002 s.
every_six_seconds : set_epoch_timestamp_event clock_os sec 6 0 stale_tm 0 0 ≡ (esp_ok, 1002000, 0)
unfolding set_epoch_timestamp_event first_event normalize_interval_to_msec timeval_msec
every_six_seconds = refl

abbrev config : Config
config = record {
  name = 116 ∷ 105 ∷ 105 ∷ [];
  interval_type = sec;
  interval_period = 6;
  interval_offset = 1;
}

abbrev handle : Handle
handle = record {
  name = 116 ∷ 105 ∷ 105 ∷ [];
  epoch_timestamp = 1003000;
  interval_type = sec;
  interval_period = 6;
  interval_offset = 1;
  hash_code = 1000;
  mutex_handle = 7;
}

abbrev late_handle : Handle
late_handle = record handle { epoch_timestamp = 997000 }

six_seconds-Accepts : Accepts sec 6 1
unfolding normalize_interval_to_msec
six_seconds-Accepts = (omega arith, omega arith, omega arith)

set_epoch_timestamp_event_guards_example :
    (Accepts sec 6 1 × ((set_epoch_timestamp_event clock_os sec 6 1 stale_tm 0 0).0 ≡ esp_ok))
    ⊎ ((¬ Accepts sec 6 1)
        × (set_epoch_timestamp_event clock_os sec 6 1 stale_tm 0 0 ≡ (esp_err_invalid_arg, 0, 0)))
set_epoch_timestamp_event_guards_example =
    set_epoch_timestamp_event_guards clock_os sec 6 1 stale_tm 0 0

clock_small : clock_msec clock_os 0 < 2 ^ 62
unfolding timeval_msec
clock_small = omega arith

start_small : start_msec clock_os sec 6 stale_tm 0 < 2 ^ 62
unfolding start_tm normalize_interval_to_msec
start_small = omega arith

start_on_grid : start_msec clock_os sec 6 stale_tm 0 ≡ 160 * normalize_interval_to_msec sec 6
unfolding start_tm normalize_interval_to_msec
start_on_grid = refl

set_epoch_timestamp_event_first_example :
    ((set_epoch_timestamp_event clock_os sec 6 1 stale_tm 0 0).0 ≡ esp_ok)
    × FirstAhead
        (start_msec clock_os sec 6 stale_tm 0
          + normalize_interval_to_msec sec 6
          + normalize_interval_to_msec sec 1)
        (normalize_interval_to_msec sec 6)
        (clock_msec clock_os 0)
        (set_epoch_timestamp_event clock_os sec 6 1 stale_tm 0 0).1
set_epoch_timestamp_event_first_example =
    set_epoch_timestamp_event_first clock_os sec 6 1 stale_tm 0 (omega arith) six_seconds-Accepts
      clock_small start_small

set_epoch_timestamp_event_on_grid_example :
    (n : ℕ) × ((set_epoch_timestamp_event clock_os sec 6 1 stale_tm 0 0).1
      ≡ n * normalize_interval_to_msec sec 6 + normalize_interval_to_msec sec 1)
set_epoch_timestamp_event_on_grid_example =
    set_epoch_timestamp_event_on_grid clock_os sec 6 1 stale_tm 0 160 (omega arith)
      six_seconds-Accepts clock_small start_small start_on_grid

exceed_next_tm_only_minutes_example :
    exceed_next_tm 7200000 stale_tm
    ≡ (if ltb 60000 7200000 then record stale_tm { tm_min = 0; tm_sec = 0 } else stale_tm)
exceed_next_tm_only_minutes_example = exceed_next_tm_only_minutes 7200000 stale_tm

set_epoch_timestamp_event_over_28_days_example :
    (max_period_msec < 3600000 * 1200)
    × ((set_epoch_timestamp_event clock_os hr 1200 0 stale_tm 0 0).0 ≡ esp_ok)
set_epoch_timestamp_event_over_28_days_example =
    set_epoch_timestamp_event_over_28_days clock_os 1200 stale_tm 0 0 (omega arith) (omega arith)

clock_os-HeapLaws : HeapLaws clock_os (λ n. n)
clock_os-HeapLaws = record {
  calloc_some = λ w e. omega arith;
  calloc_none = λ w e. cc;
  free_one = λ w. refl;
  clock_keeps = λ w. refl;
  mutex_keeps = λ w. refl;
}

time_into_interval_lem_example :
    let r = time_into_interval clock_os stale_tm (some late_handle) 0 in
    let due = leb 997000 (clock_msec clock_os 0) in
    (r.0 ≡ due) × (r.1 ≡ some (if due then next_period late_handle else late_handle))
time_into_interval_lem_example =
    time_into_interval_lem clock_os stale_tm late_handle 0 six_seconds-Accepts (omega arith)
      (omega arith) refl (unfold timeval_msec in omega arith)

delay_until_passed_example :
    FirstAhead
      (start_msec clock_os sec 6 stale_tm 0
        + normalize_interval_to_msec sec 6
        + normalize_interval_to_msec sec 1)
      (normalize_interval_to_msec sec 6)
      (clock_msec clock_os 0)
      (delay_until clock_os stale_tm late_handle 0).0.epoch_timestamp
delay_until_passed_example =
    delay_until_passed clock_os stale_tm late_handle 0 0 six_seconds-Accepts (omega arith)
      (unfold timeval_msec in omega arith) clock_small refl refl clock_small start_small

-- The same services in a world that counts how often the mutex is held.
abbrev lock_os : Os ℕ
lock_os = record clock_os {
  calloc = λ n. (true, n);
  free = λ n. n;
  x_semaphore_take = λ _ n. suc n;
  x_semaphore_give = λ _ n. n - 1;
}

lock_os-LockLaws : LockLaws lock_os (λ _ n. n)
lock_os-LockLaws = record {
  taken = λ m w. refl;
  given = λ m w. refl;
  clock_keeps = λ m w. refl;
  delay_keeps = λ m ticks w. refl;
}

operations-give_back_example :
    ((time_into_interval lock_os stale_tm (some late_handle) 0).2 ≡ 0)
    × ((time_into_interval_delay lock_os stale_tm (some late_handle) 0).2 ≡ 0)
    × ((time_into_interval_get_last_event lock_os stale_tm (some late_handle) 5 0).2 ≡ 0)
    × ((delay_until lock_os stale_tm late_handle 0).2 ≡ 0)
operations-give_back_example =
    operations-give_back lock_os stale_tm (λ _ n. n) lock_os-LockLaws late_handle 0 5
