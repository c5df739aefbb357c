-- ===== src/Esp.antt =====
-- What the program takes from ESP-IDF, FreeRTOS and the C library: the error codes that it names,
-- and the services that it calls. The services are a record that every model takes as an argument,
-- over a type `W` for whatever they keep; nothing is assumed of them but
-- where a theorem says so.
use esp32_s3_i2c_mqtt_machba.Base.{ℕ, suc, ◌-◌, ◌≡◌, Bool, true, false}

-- `esp_err_t`. The named codes are those that the program itself returns or compares; `idf` is any
-- other code that a service may return.
pub data EspErr : Type 0 where
  esp_ok : EspErr
  esp_err_no_mem : EspErr
  esp_err_invalid_arg : EspErr
  esp_err_invalid_state : EspErr
  esp_err_timeout : EspErr
  esp_err_invalid_version : EspErr
  esp_err_not_supported : EspErr
  idf : ℕ → EspErr

abbrev pub is_ok : EspErr → Bool
is_ok esp_ok = true
is_ok _ = false

-- `struct timeval`
pub record Timeval : Type 0 where
  pub tv_sec : ℕ
  pub tv_usec : ℕ

-- `struct tm`: the members that `mktime` reads.
pub record Tm : Type 0 where
  pub tm_sec : ℕ
  pub tm_min : ℕ
  pub tm_hour : ℕ
  pub tm_mday : ℕ
  pub tm_mon : ℕ
  pub tm_year : ℕ
  pub tm_isdst : ℕ

-- The clock, the heap, the semaphores and the scheduler. `gettimeofday` also says whether it
-- succeeded; `calloc` whether it returned memory.
pub record Os (W : Type 0) : Type 0 where
  pub gettimeofday : W → Bool × Timeval × W
  pub localtime_r : ℕ → Tm
  pub mktime : Tm → ℕ
  pub calloc : W → Bool × W
  pub free : W → W
  pub x_semaphore_create_mutex : W → ℕ × W
  pub x_semaphore_take : ℕ → W → W
  pub x_semaphore_give : ℕ → W → W
  pub v_task_delay : ℕ → W → W
  pub port_tick_period_ms : ℕ

-- How the services treat the number of blocks that `calloc` has handed out and that are not freed.
pub record HeapLaws {W : Type 0} (os : Os W) (live : W → ℕ) : Type 0 where
  pub calloc_some : (w : W) → (os.calloc w).0 ≡ true → live (os.calloc w).1 ≡ suc (live w)
  pub calloc_none : (w : W) → (os.calloc w).0 ≡ false → live (os.calloc w).1 ≡ live w
  pub free_one : (w : W) → live (os.free w) ≡ live w - 1
  pub clock_keeps : (w : W) → live (os.gettimeofday w).2 ≡ live w
  pub mutex_keeps : (w : W) → live (os.x_semaphore_create_mutex w).1 ≡ live w
