-- ===== src/Tendency/Examples.antt =====
-- Concrete runs of the pressure tendency, and the theorems at concrete inputs.
use esp32_s3_i2c_mqtt_machba.Base.{
  ℕ, ◌+◌, ◌-◌, ◌≡◌, refl, true, Option, none, some, List, [], ◌∷◌, ◌++◌, arith,
}
use esp32_s3_i2c_mqtt_machba.Base.Int.{ℤ, pos, negsuc, ◌-ℤ◌}
use esp32_s3_i2c_mqtt_machba.Esp.{esp_ok, Os, HeapLaws}
use esp32_s3_i2c_mqtt_machba.Float.Whole.{whole}
use esp32_s3_i2c_mqtt_machba.Window.{Window, push}
use esp32_s3_i2c_mqtt_machba.Window.Contents.{IsValid}
use esp32_s3_i2c_mqtt_machba.Window.History.{IsFresh, push_all}
use esp32_s3_i2c_mqtt_machba.Tendency.{
  unknown, falling, classify, verdict, pressure_tendency_analysis,
}
use esp32_s3_i2c_mqtt_machba.Tendency.History.{tendency_of, pressure_tendency_analysis-tendency_of}

-- A world that counts the blocks on the heap.
abbrev heap_os : Os ℕ
heap_os = record {
  gettimeofday = λ n. (true, record { tv_sec = 0; tv_usec = 0 }, n);
  localtime_r = λ t. record {
    tm_sec = 0;
    tm_min = 0;
    tm_hour = 0;
    tm_mday = 1;
    tm_mon = 0;
    tm_year = 70;
    tm_isdst = 0;
  };
  mktime = λ tm. 0;
  calloc = λ n. (true, n + 1);
  free = λ n. n - 1;
  x_semaphore_create_mutex = λ n. (7, n);
  x_semaphore_take = λ _ n. n;
  x_semaphore_give = λ _ n. n;
  v_task_delay = λ _ n. n;
  port_tick_period_ms = 10;
}

heap_os-HeapLaws : HeapLaws heap_os (λ n. n)
heap_os-HeapLaws = record {
  calloc_some = λ w e. omega arith;
  calloc_none = λ w e. cc;
  free_one = λ w. refl;
  clock_keeps = λ w. refl;
  mutex_keeps = λ w. refl;
}

abbrev handle : Window (Option ℤ)
handle = record { samples_count = 0; samples_size = 3; samples = none ∷ none ∷ none ∷ [] }

handle-IsFresh : IsFresh {F = Option ℤ} none 3 handle
handle-IsFresh = (
  record { sized = refl; counted = omega arith; nonempty = omega arith; small = omega arith },
  refl,
  refl,
)

abbrev history : List (Option ℤ)
history = some (pos 9) ∷ some (pos 8) ∷ some (pos 5) ∷ []

-- The fourth sample pushes out the first: 4 less 8.
falls : tendency_of whole 3 (history ++ some (pos 4) ∷ []) ≡ (falling, some (negsuc 3))
unfolding tendency_of classify ◌-ℤ◌
falls = refl

analysis_runs :
    (pressure_tendency_analysis whole
      (some (push_all none history handle))
      (some (pos 4))
      (unknown, none)).2
    ≡ (falling, some (negsuc 3))
unfolding pressure_tendency_analysis verdict classify push ◌-ℤ◌
analysis_runs = refl

pressure_tendency_analysis-tendency_of_example :
    (w' : Window (Option ℤ)) × (pressure_tendency_analysis whole
        (some (push_all none history handle))
        (some (pos 4))
        (unknown, none)
      ≡ (esp_ok, some w', tendency_of whole 3 (history ++ some (pos 4) ∷ [])))
    × IsValid w'
pressure_tendency_analysis-tendency_of_example =
    pressure_tendency_analysis-tendency_of whole 3 handle history (some (pos 4)) (unknown, none)
      handle-IsFresh
