-- ===== src/Interval/Handle.antt =====
-- time_into_interval.c: the handle and its operations. A handle is `none` where the source has a
-- null pointer. `next_tm` is what the stack holds where the source does not initialise `next_tm`.
use Prim.Native.Nat.{bit_and, bit_xor}
use esp32_s3_i2c_mqtt_machba.Base.{
  ℕ, ◌/◌, ◌^◌, Bool, true, false, Option, none, some, List, length, ltb, ◌==◌, if◌then◌else◌,
}
use esp32_s3_i2c_mqtt_machba.Base.Int.{ℤ, pos, leb_ℤ, ltb_ℤ, div_ℤ, mod_ℤ}
use esp32_s3_i2c_mqtt_machba.Base.Word.{u16, sub64, signed64}
use esp32_s3_i2c_mqtt_machba.Esp.{
  EspErr, esp_ok, esp_err_no_mem, esp_err_invalid_arg, is_ok, Tm, Os,
}
use esp32_s3_i2c_mqtt_machba.Interval.Normalize.{
  IntervalType, normalize_interval_to_sec, normalize_interval_to_msec,
}
use esp32_s3_i2c_mqtt_machba.Interval.Event.{
  get_epoch_timestamp, get_epoch_timestamp_msec, set_epoch_timestamp_event,
}

-- `time_into_interval_config_t`; the name is its characters.
pub record Config : Type 0 where
  pub name : List ℕ
  pub interval_type : IntervalType
  pub interval_period : ℕ
  pub interval_offset : ℕ

-- `struct time_into_interval_t`
pub record Handle : Type 0 where
  pub name : List ℕ
  pub epoch_timestamp : ℕ
  pub interval_type : IntervalType
  pub interval_period : ℕ
  pub interval_offset : ℕ
  pub hash_code : ℕ
  pub mutex_handle : ℕ

-- `TIME_INTO_INTERVAL_NAME_MAX_SIZE`
abbrev pub name_max_size : ℕ
name_max_size = 25

-- `delta_msec / portTICK_PERIOD_MS`, as a `TickType_t`.
unfoldable pub ticks_until : ℕ → ℕ → ℕ → ℕ
ticks_until tick_period_ms epoch now =
    mod_ℤ (div_ℤ (signed64 (sub64 epoch now)) (pos tick_period_ms)) (2 ^ 32)

module _ {W : Type 0} (os : Os W) (next_tm : Tm) where
  -- `time_into_interval_get_hash_code`
  unfoldable pub get_hash_code : W → ℕ × W
  unfolding get_epoch_timestamp
  get_hash_code w =
      let (now, w') = get_epoch_timestamp os w in
      let seed_hash = u16 now in (bit_and (bit_xor (seed_hash / 2 ^ 16) seed_hash) 0xFFFF, w')

  -- The call of `time_into_interval_set_epoch_timestamp_event` on a handle's own members, whose
  -- status the callers ignore.
  unfoldable pub set_next_event : Handle → W → Handle × W
  set_next_event h w =
      let (_, epoch, w') =
        set_epoch_timestamp_event os h.interval_type h.interval_period h.interval_offset next_tm
          h.epoch_timestamp w in
      (record h { epoch_timestamp = epoch }, w')

  -- `time_into_interval_init` from the allocation on.
  unfoldable pub init_handle : Config → Option Handle → Bool × W → EspErr × Option Handle × W
  init_handle config out (false, w) = (esp_err_no_mem, out, w)
  init_handle config out (true, w) =
      let (hash, w₁) = get_hash_code w in
      let (mutex, w₂) = os.x_semaphore_create_mutex w₁ in
      let (ret, epoch, w₃) =
        set_epoch_timestamp_event os config.interval_type config.interval_period
          config.interval_offset next_tm 0 w₂ in
      let handle : Handle = record {
        name = config.name;
        epoch_timestamp = epoch;
        interval_type = config.interval_type;
        interval_period = config.interval_period;
        interval_offset = config.interval_offset;
        hash_code = hash;
        mutex_handle = mutex;
      } in
      if is_ok ret then (esp_ok, some handle, w₃) else (ret, out, os.free w₃)

  -- `interval_delta`
  abbrev pub interval_delta : Config → ℤ
  interval_delta config = signed64 (
      sub64 (normalize_interval_to_sec config.interval_type config.interval_period)
        (normalize_interval_to_sec config.interval_type config.interval_offset))

  -- `time_into_interval_init`: the status, and what the output pointer holds, which held `out`.
  unfoldable pub time_into_interval_init : Config → Option Handle → W → EspErr × Option Handle × W
  time_into_interval_init config out w =
      if ltb name_max_size (length config.name)
      then (esp_err_invalid_arg, out, w)
      else if config.interval_period == 0
      then (esp_err_invalid_arg, out, w)
      else if leb_ℤ (interval_delta config) (pos 0)
      then (esp_err_invalid_arg, out, w)
      else init_handle config out (os.calloc w)

  -- `time_into_interval`
  unfoldable pub time_into_interval : Option Handle → W → Bool × Option Handle × W
  time_into_interval none w = (false, none, w)
  time_into_interval (some h) w =
      let (now, w₁) = get_epoch_timestamp_msec os (os.x_semaphore_take h.mutex_handle w) in
      if leb_ℤ (signed64 (sub64 h.epoch_timestamp now)) (pos 0)
      then (let (h', w₂) = set_next_event h w₁ in
          (true, some h', os.x_semaphore_give h.mutex_handle w₂))
      else (false, some h, os.x_semaphore_give h.mutex_handle w₁)

  -- The part of `time_into_interval_delay` under the first lock: the handle whose event is awaited,
  -- and the ticks to wait for it.
  unfoldable pub delay_until : Handle → W → Handle × ℕ × W
  delay_until h w =
      let (now, w₁) = get_epoch_timestamp_msec os (os.x_semaphore_take h.mutex_handle w) in
      let (h', w₂) =
        if ltb_ℤ (signed64 (sub64 h.epoch_timestamp now)) (pos 0)
        then set_next_event (record h { epoch_timestamp = 0 }) w₁
        else (h, w₁) in
      (
        h',
        ticks_until os.port_tick_period_ms h'.epoch_timestamp now,
        os.x_semaphore_give h.mutex_handle w₂,
      )

  -- `time_into_interval_delay`
  unfoldable pub time_into_interval_delay : Option Handle → W → EspErr × Option Handle × W
  time_into_interval_delay none w = (esp_err_invalid_arg, none, w)
  time_into_interval_delay (some h) w =
      let (h₁, delay, w₁) = delay_until h w in
      let w₂ = os.v_task_delay delay w₁ in
      let (h₂, w₃) = set_next_event h₁ (os.x_semaphore_take h.mutex_handle w₂) in
      (esp_ok, some h₂, os.x_semaphore_give h.mutex_handle w₃)

  -- `time_into_interval_get_last_event`: the status, and what `*epoch_timestamp` holds.
  unfoldable pub time_into_interval_get_last_event : Option Handle → ℕ → W → EspErr × ℕ × W
  time_into_interval_get_last_event none epoch w = (esp_err_invalid_arg, epoch, w)
  time_into_interval_get_last_event (some h) epoch w = (
    esp_ok,
    sub64 h.epoch_timestamp (normalize_interval_to_msec h.interval_type h.interval_period),
    os.x_semaphore_give h.mutex_handle (os.x_semaphore_take h.mutex_handle w),
  )

  -- `time_into_interval_del`
  unfoldable pub time_into_interval_del : Option Handle → W → EspErr × W
  time_into_interval_del none w = (esp_ok, w)
  time_into_interval_del (some h) w = (esp_ok, os.free w)
