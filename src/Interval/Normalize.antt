-- ===== src/Interval/Normalize.antt =====
-- time_into_interval.c: interval types, and intervals in seconds and milli-seconds. The products
-- are computed on `unsigned int`, which has 32 bits on this target.
use esp32_s3_i2c_mqtt_machba.Base.{ℕ, ◌*◌, ◌^◌, ◌≤◌, ◌<◌, ◌≡◌, arith}
use esp32_s3_i2c_mqtt_machba.Base.Word.{u32}

-- `time_into_interval_types_t`
pub data IntervalType : Type 0 where
  sec min hr : IntervalType

-- `time_into_interval_normalize_interval_to_sec`
unfoldable pub normalize_interval_to_sec : IntervalType → ℕ → ℕ
normalize_interval_to_sec sec interval = interval
normalize_interval_to_sec min interval = u32 (interval * 60)
normalize_interval_to_sec hr interval = u32 (interval * 3600)

-- `time_into_interval_normalize_interval_to_msec`
unfoldable pub normalize_interval_to_msec : IntervalType → ℕ → ℕ
normalize_interval_to_msec sec interval = u32 (interval * 1000)
normalize_interval_to_msec min interval = u32 (u32 (interval * 60) * 1000)
normalize_interval_to_msec hr interval = u32 (u32 (u32 (interval * 60) * 60) * 1000)

-- Milli-seconds in one unit of an interval type, with no wrap.
abbrev pub unit_msec : IntervalType → ℕ
unit_msec sec = 1000
unit_msec min = 60000
unit_msec hr = 3600000

pub normalize_interval_to_msec-mod :
    (t : IntervalType) (n : ℕ) → n < 2 ^ 16 → normalize_interval_to_msec t n ≡ u32 (unit_msec t * n)
unfolding normalize_interval_to_msec
normalize_interval_to_msec-mod sec n h = omega arith
normalize_interval_to_msec-mod min n h = omega arith
normalize_interval_to_msec-mod hr n h = omega arith

pub normalize_interval_to_msec-exact :
    (t : IntervalType) (n : ℕ) → n ≤ 1193 → normalize_interval_to_msec t n ≡ unit_msec t * n
unfolding normalize_interval_to_msec
normalize_interval_to_msec-exact sec n h = omega arith
normalize_interval_to_msec-exact min n h = omega arith
normalize_interval_to_msec-exact hr n h = omega arith

-- No wrap turns a positive 16-bit interval into 0.
pub normalize_interval_to_msec-pos :
    (t : IntervalType) (n : ℕ) → n < 2 ^ 16 → 0 < n → 0 < normalize_interval_to_msec t n
unfolding normalize_interval_to_msec
normalize_interval_to_msec-pos sec n h p = omega arith
normalize_interval_to_msec-pos min n h p = omega arith
normalize_interval_to_msec-pos hr n h p = omega arith

pub normalize_interval_to_msec-lt :
    (t : IntervalType) (n : ℕ) → normalize_interval_to_msec t n < 2 ^ 32
unfolding normalize_interval_to_msec
normalize_interval_to_msec-lt sec n = omega arith
normalize_interval_to_msec-lt min n = omega arith
normalize_interval_to_msec-lt hr n = omega arith
