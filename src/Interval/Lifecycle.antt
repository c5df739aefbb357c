-- ===== src/Interval/Lifecycle.antt =====
-- Initialization of a time-into-interval handle: what it accepts, and what it leaves behind.
use esp32_s3_i2c_mqtt_machba.Base.{
  ℕ, suc, ◌+◌, ◌^◌, ◌≤◌, ◌<◌, ◌≡◌, refl, Bool, true, false, Option, none, some, arith, length,
  if◌then◌else◌,
}
use esp32_s3_i2c_mqtt_machba.Esp.{EspErr, esp_ok, is_ok, Tm, Os, HeapLaws}
use esp32_s3_i2c_mqtt_machba.Interval.Normalize.{IntervalType, normalize_interval_to_sec}
use esp32_s3_i2c_mqtt_machba.Interval.Event.{get_epoch_timestamp, set_epoch_timestamp_event}
use esp32_s3_i2c_mqtt_machba.Interval.Schedule.{Accepts, set_epoch_timestamp_event_guards}
use esp32_s3_i2c_mqtt_machba.Interval.Handle.{
  Config, Handle, name_max_size, get_hash_code, init_handle, time_into_interval_init,
}

-- The members of a handle agree with one another and with the limits of the configuration.
pub record IsValid (h : Handle) : Type 0 where
  pub named : length h.name ≤ name_max_size
  pub accepted : Accepts h.interval_type h.interval_period h.interval_offset
  pub offset_inside :
      normalize_interval_to_sec h.interval_type h.interval_offset
      < normalize_interval_to_sec h.interval_type h.interval_period

-- What an initialization with this status has left in the caller's handle variable, which held
-- `out`.
abbrev pub Initialized : Config → Option Handle → EspErr → Option Handle → Type 0
Initialized config out esp_ok none = ⊥
Initialized config out esp_ok (some h) =
    IsValid h
    × (h.interval_type ≡ config.interval_type)
    × (h.interval_period ≡ config.interval_period)
    × (h.interval_offset ≡ config.interval_offset)
Initialized config out _ out' = out' ≡ out

normalize_interval_to_sec-lt :
    (t : IntervalType) (n : ℕ) → n < 2 ^ 16 → normalize_interval_to_sec t n < 2 ^ 32
unfolding normalize_interval_to_sec
normalize_interval_to_sec-lt t n h = ground arith

module _ {W : Type 0} (os : Os W) (next_tm : Tm) where
  init_handle-Initialized :
      (config : Config) (out : Option Handle) (got : Bool × W)
      → length config.name ≤ name_max_size
      → normalize_interval_to_sec config.interval_type config.interval_offset
        < normalize_interval_to_sec config.interval_type config.interval_period
      → let r = init_handle os next_tm config out got in Initialized config out r.0 r.1
  unfolding init_handle
  init_handle-Initialized config out (false, w) named inside = refl
  init_handle-Initialized config out (true, w) named inside =
      let (hash, w₁) = get_hash_code os next_tm w in
      let (mutex, w₂) = os.x_semaphore_create_mutex w₁ in
      ground (
        arith,
        set_epoch_timestamp_event_guards os config.interval_type config.interval_period
            config.interval_offset next_tm 0 w₂,
      )

  -- An initialization that succeeds yields a handle with the members of the configuration, which
  -- is valid; one that fails leaves the caller's handle variable as it was.
  pub time_into_interval_init-Initialized :
      (config : Config) (out : Option Handle) (w : W)
      → config.interval_period < 2 ^ 16
      → config.interval_offset < 2 ^ 16
      → let r = time_into_interval_init os next_tm config out w in Initialized config out r.0 r.1
  unfolding time_into_interval_init
  time_into_interval_init-Initialized config out w p o = ground (
    arith,
    normalize_interval_to_sec-lt config.interval_type config.interval_period,
    normalize_interval_to_sec-lt config.interval_type config.interval_offset,
    init_handle-Initialized config out (os.calloc w),
  )

  module _ (live : W → ℕ) (laws : HeapLaws os live) where
    live-get_hash_code : (w : W) → live (get_hash_code os next_tm w).1 ≡ live w
    unfolding get_hash_code get_epoch_timestamp
    live-get_hash_code w = laws.clock_keeps w

    live-set_epoch_timestamp_event :
        (t : IntervalType) (period offset epoch : ℕ) (w : W)
        → live (set_epoch_timestamp_event os t period offset next_tm epoch w).2 ≡ live w
    unfolding set_epoch_timestamp_event
    live-set_epoch_timestamp_event t period offset epoch w = ground (arith, laws.clock_keeps w)

    live-init_handle :
        (config : Config) (out : Option Handle) (n : ℕ) (got : Bool × W)
        → live got.1 ≡ (if got.0 then suc n else n)
        → let r = init_handle os next_tm config out got in
          live r.2 ≡ n + (if is_ok r.0 then 1 else 0)
    unfolding init_handle
    live-init_handle config out n (false, w) e = omega arith
    live-init_handle config out n (true, w) e =
        let (hash, w₁) = get_hash_code os next_tm w in
        let (mutex, w₂) = os.x_semaphore_create_mutex w₁ in
        let r =
          set_epoch_timestamp_event os config.interval_type config.interval_period
            config.interval_offset next_tm 0 w₂ in
        ground (
          arith,
          live-get_hash_code w,
          laws.mutex_keeps w₁,
          live-set_epoch_timestamp_event config.interval_type config.interval_period
              config.interval_offset 0 w₂,
          laws.free_one r.2,
        )

    -- An initialization that succeeds keeps exactly one block of memory, one that fails none.
    pub live-time_into_interval_init :
        (config : Config) (out : Option Handle) (w : W)
        → let r = time_into_interval_init os next_tm config out w in
          live r.2 ≡ live w + (if is_ok r.0 then 1 else 0)
    unfolding time_into_interval_init
    live-time_into_interval_init config out w = ground (
      arith,
      laws.calloc_some w,
      laws.calloc_none w,
      live-init_handle config out (live w) (os.calloc w),
    )
