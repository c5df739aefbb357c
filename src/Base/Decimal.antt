-- ===== src/Base/Decimal.antt =====
-- The decimal digits of a word, as `printf` writes them.
use Prim.Native.Nat.{ℕ, zero, suc, ◌+◌, ◌-◌, ◌*◌, ◌/◌, ◌%◌, ◌^◌, ◌≤◌, ◌<◌}
use mathlib.Core.List.{List, [], ◌∷◌, ◌++◌}
use mathlib.Core.Logic.{inl, inr}
use mathlib.Core.Path.{◌≡◌, refl}
use native.Mathlib.Omega.{arith}
use native.Mathlib.Nat.{pow-suc}
use esp32_s3_i2c_mqtt_machba.Base.Tests.{ltb, Bool-cases, if◌then◌else◌}
use esp32_s3_i2c_mqtt_machba.Base.Lists.{length, length-append}

-- The digits of `n`, with fuel for the digits that follow the first.
unfoldable pub decimal : ℕ → ℕ → List ℕ
decimal zero n = (b'0' + n % 10) ∷ []
decimal (suc fuel) n =
    let rest = decimal fuel (n / 10) in
    if ltb n 10 then (b'0' + n) ∷ [] else rest ++ (b'0' + n % 10) ∷ []

-- `%llu`: a word of 64 bits has 20 digits at most.
abbrev pub format_u64 : ℕ → List ℕ
format_u64 n = decimal 19 n

pub length-decimal : (fuel n : ℕ) → length (decimal fuel n) ≤ suc fuel
unfolding decimal
length-decimal zero n = omega arith
length-decimal (suc fuel) n = elim (Bool-cases (ltb n 10)) [
  | inl e ↦ rw e (omega arith)
  | inr e ↦ rw e (
      omega (
        arith,
        length-decimal fuel (n / 10),
        length-append (decimal fuel (n / 10)) ((b'0' + n % 10) ∷ []),
      ))
]

-- The number that digits stand for.
abbrev pub decimal_value : ℕ → List ℕ → ℕ
decimal_value acc [] = acc
decimal_value acc (c ∷ cs) = decimal_value (acc * 10 + (c - b'0')) cs

decimal_value-append :
    (acc : ℕ) (cs : List ℕ) (c : ℕ)
    → decimal_value acc (cs ++ c ∷ []) ≡ decimal_value acc cs * 10 + (c - b'0')
decimal_value-append acc [] c = refl
decimal_value-append acc (d ∷ ds) c = decimal_value-append (acc * 10 + (d - b'0')) ds c

decimal_value-decimal : (fuel n : ℕ) → n < 10 ^ suc fuel → decimal_value 0 (decimal fuel n) ≡ n
unfolding decimal
decimal_value-decimal zero n lt = omega arith
decimal_value-decimal (suc fuel) n lt = elim (Bool-cases (ltb n 10)) [
  | inl e ↦ rw e (omega arith)
  | inr e ↦
      rw (e, decimal_value-append 0 (decimal fuel (n / 10)) (b'0' + n % 10))
        (omega (arith, decimal_value-decimal fuel (n / 10) (omega (arith, pow-suc 10 (suc fuel)))))
]

-- The digits of a word of 64 bits stand for it.
pub decimal_value-format_u64 : (n : ℕ) → n < 2 ^ 64 → decimal_value 0 (format_u64 n) ≡ n
decimal_value-format_u64 n lt = decimal_value-decimal 19 n (omega arith)
