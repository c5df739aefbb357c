-- ===== src/Trend/Examples.antt =====
-- The theorems on the trend at concrete inputs.
use esp32_s3_i2c_mqtt_machba.Base.{
  ℕ, ◌+◌, ◌-◌, ◌≡◌, refl, true, Option, none, some, List, [], ◌∷◌, ◌++◌, arith,
}
use esp32_s3_i2c_mqtt_machba.Base.Int.{ℤ, pos}
use esp32_s3_i2c_mqtt_machba.Esp.{esp_ok, Os, HeapLaws}
use esp32_s3_i2c_mqtt_machba.Float.Whole.{whole, whole-NanLaws}
use esp32_s3_i2c_mqtt_machba.Window.Contents.{IsValid}
use esp32_s3_i2c_mqtt_machba.Window.History.{IsFresh}
use esp32_s3_i2c_mqtt_machba.Trend.Fit.{unknown, steady}
use esp32_s3_i2c_mqtt_machba.Trend.Handle.{Trend, scalar_trend_analysis}
use esp32_s3_i2c_mqtt_machba.Trend.History.{trend_of, after, scalar_trend_analysis-trend_of}
use esp32_s3_i2c_mqtt_machba.Trend.Poison.{trend_of-nan}

-- A world that counts the blocks on the heap, and whose heap is full at 6 blocks.
abbrev heap_os : Os ℕ
heap_os = record {
  gettimeofday = λ n. (true, record { tv_sec = 0; tv_usec = 0 }, n);
  localtime_r = λ t. record {
    tm_sec = 0;
    tm_min = 0;
    tm_hour = 0;
    tm_mday = 1;
    tm_mon = 0;
    tm_year = 70;
    tm_isdst = 0;
  };
  mktime = λ tm. 0;
  calloc = λ n. (true, n + 1);
  free = λ n. n - 1;
  x_semaphore_create_mutex = λ n. (7, n);
  x_semaphore_take = λ _ n. n;
  x_semaphore_give = λ _ n. n;
  v_task_delay = λ _ n. n;
  port_tick_period_ms = 10;
}

heap_os-HeapLaws : HeapLaws heap_os (λ n. n)
heap_os-HeapLaws = record {
  calloc_some = λ w e. omega arith;
  calloc_none = λ w e. cc;
  free_one = λ w. refl;
  clock_keeps = λ w. refl;
  mutex_keeps = λ w. refl;
}

abbrev handle : Trend (Option ℤ) (Option ℤ)
handle = record {
  critical_t = some (pos 2);
  window = record { samples_count = 0; samples_size = 3; samples = none ∷ none ∷ none ∷ [] };
}

handle-IsFresh : IsFresh {F = Option ℤ} none 3 handle.window
handle-IsFresh = (
  record { sized = refl; counted = omega arith; nonempty = omega arith; small = omega arith },
  refl,
  refl,
)

abbrev history : List (Option ℤ)
history = some (pos 1) ∷ some (pos 2) ∷ some (pos 3) ∷ []

scalar_trend_analysis-trend_of_example :
    (t' : Trend (Option ℤ) (Option ℤ)) × (scalar_trend_analysis whole
        (some (after whole history handle))
        (some (pos 4))
        unknown
      ≡ (esp_ok, some t', trend_of whole (some (pos 2)) 3 (history ++ some (pos 4) ∷ [])))
    × IsValid t'.window
    × (t'.critical_t ≡ some (pos 2))
scalar_trend_analysis-trend_of_example =
    scalar_trend_analysis-trend_of whole 3 handle history (some (pos 4)) unknown handle-IsFresh

abbrev poisoned : List (Option ℤ)
poisoned = some (pos 1) ∷ none ∷ some (pos 30) ∷ some (pos 40) ∷ []

trend_of-nan_example : trend_of whole (some (pos 2)) 3 poisoned ≡ steady
trend_of-nan_example =
    trend_of-nan whole none whole-NanLaws (some (pos 2)) 3 1 poisoned (omega arith) (omega arith)
      (omega arith) refl
