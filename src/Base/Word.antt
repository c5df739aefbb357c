-- ===== src/Base/Word.antt =====
-- Machine words as native numbers. An unsigned word is its value; a signed one is its bit pattern
-- or the integer that it stands for.
use Prim.Native.Nat.{ℕ, ◌+◌, ◌-◌, ◌%◌, ◌^◌, ◌≤◌, ◌<◌}
use mathlib.Core.Path.{◌≡◌}
use native.Mathlib.Omega.{arith}
use esp32_s3_i2c_mqtt_machba.Base.Tests.{ltb, leb, if◌then◌else◌}
use esp32_s3_i2c_mqtt_machba.Base.Int.{ℤ, pos, negsuc, leb_ℤ, ltb_ℤ, mod_ℤ}

abbrev pub u8 : ℕ → ℕ
u8 n = n % 2 ^ 8

abbrev pub u16 : ℕ → ℕ
u16 n = n % 2 ^ 16

abbrev pub u32 : ℕ → ℕ
u32 n = n % 2 ^ 32

abbrev pub u64 : ℕ → ℕ
u64 n = n % 2 ^ 64

-- `a - b` on `uint32_t` and on `uint64_t`, for words.
abbrev pub sub32 : ℕ → ℕ → ℕ
sub32 a b = (a + 2 ^ 32 - b) % 2 ^ 32

abbrev pub sub64 : ℕ → ℕ → ℕ
sub64 a b = (a + 2 ^ 64 - b) % 2 ^ 64

-- The number that a bit pattern of a signed type stands for.
abbrev pub signed16 : ℕ → ℤ
signed16 w = if ltb w (2 ^ 15) then pos w else negsuc (2 ^ 16 - w - 1)

abbrev pub signed32 : ℕ → ℤ
signed32 w = if ltb w (2 ^ 31) then pos w else negsuc (2 ^ 32 - w - 1)

abbrev pub signed64 : ℕ → ℤ
signed64 w = if ltb w (2 ^ 63) then pos w else negsuc (2 ^ 64 - w - 1)

-- An integer reduced into `int32_t`, `int64_t` and `uint32_t`.
abbrev pub int32 : ℤ → ℤ
int32 a = signed32 (mod_ℤ a (2 ^ 32))

abbrev pub int64 : ℤ → ℤ
int64 a = signed64 (mod_ℤ a (2 ^ 64))

-- The sign of a 64-bit difference of words below 2 ^ 63 tells which is larger.
pub leb_ℤ-signed64-sub64 :
    (a b : ℕ) → a < 2 ^ 63 → b < 2 ^ 63 → leb_ℤ (signed64 (sub64 a b)) (pos 0) ≡ leb a b
leb_ℤ-signed64-sub64 a b ha hb = ground arith

pub ltb_ℤ-signed64-sub64 :
    (a b : ℕ) → a < 2 ^ 63 → b < 2 ^ 63 → ltb_ℤ (signed64 (sub64 a b)) (pos 0) ≡ ltb a b
ltb_ℤ-signed64-sub64 a b ha hb = ground arith

pub signed64-sub64_ahead : (a b : ℕ) → a < 2 ^ 63 → b ≤ a → signed64 (sub64 a b) ≡ pos (a - b)
signed64-sub64_ahead a b ha h = ground arith
