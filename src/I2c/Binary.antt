-- ===== src/I2c/Binary.antt =====
-- i2c_master_ext.c: the digits of a word in base 2.
use native.Mathlib.Nat.{pow-suc}
use esp32_s3_i2c_mqtt_machba.Base.{
  ℕ, zero, suc, ◌+◌, ◌-◌, ◌*◌, ◌/◌, ◌%◌, ◌^◌, ◌≤◌, ◌<◌, ◌≡◌, ◌∙◌, refl, ap, List, [], ◌∷◌, set,
  replicate, length, length-set, length-replicate, drop, sym, arith,
}

-- The loop of the three functions, which fills the buffer from its last digit: `n` rounds are left,
-- and the next digit goes to the slot `n - 1`.
unfoldable pub digits : ℕ → ℕ → List ℕ → List ℕ
digits zero n buffer = buffer
digits (suc i) n buffer = digits i (n / 2) (set buffer i (48 + n % 2))

-- `uint8_to_binary`, `uint16_to_binary` and `uint32_to_binary`: the characters before the
-- terminator.
unfoldable pub uint8_to_binary : ℕ → List ℕ
uint8_to_binary n = digits 8 n (replicate 8 0)

unfoldable pub uint16_to_binary : ℕ → List ℕ
uint16_to_binary n = digits 16 n (replicate 16 0)

unfoldable pub uint32_to_binary : ℕ → List ℕ
uint32_to_binary n = digits 32 n (replicate 32 0)

-- The number that a string of digits stands for, after the number `acc`.
unfoldable pub value_from : ℕ → List ℕ → ℕ
value_from acc [] = acc
value_from acc (c ∷ cs) = value_from (2 * acc + (c - 48)) cs

-- The value of the low digits.
abbrev low : ℕ → ℕ → ℕ
low zero n = 0
low (suc i) n = 2 * low i (n / 2) + n % 2

low-all : (i n : ℕ) → n < 2 ^ i → low i n ≡ n
low-all zero n lt = omega arith
low-all (suc i) n lt = let half = low-all i (n / 2) (omega (arith, pow-suc 2 i)) in omega arith

drop-set :
    (i d : ℕ) (buffer : List ℕ)
    → i < length buffer
    → drop i (set buffer i d) ≡ d ∷ drop (suc i) buffer
drop-set i d [] lt = absurd (omega arith)
drop-set zero d (c ∷ buffer) lt = refl
drop-set (suc i) d (c ∷ buffer) lt = drop-set i d buffer (omega arith)

value-digits :
    (i n : ℕ) (buffer : List ℕ)
    → i ≤ length buffer
    → value_from 0 (digits i n buffer) ≡ value_from (low i n) (drop i buffer)
unfolding digits value_from
value-digits zero n buffer le = refl
value-digits (suc i) n buffer le =
    let digit : 48 + n % 2 - 48 ≡ n % 2 = omega arith in
    value-digits i (n / 2) (set buffer i (48 + n % 2))
      (omega (arith, length-set buffer i (48 + n % 2)))
    ∙ ap (value_from (low i (n / 2))) (drop-set i (48 + n % 2) buffer (omega arith))
    ∙ ap (λ d. value_from (2 * low i (n / 2) + d) (drop (suc i) buffer)) digit

drop-length : (xs : List ℕ) → drop (length xs) xs ≡ []
drop-length [] = refl
drop-length (x ∷ xs) = drop-length xs

abbrev zeros : ℕ → List ℕ
zeros i = replicate i 0

length-zeros : (i : ℕ) → length (zeros i) ≡ i
length-zeros i = length-replicate i 0

drop-zeros : (i : ℕ) → drop i (zeros i) ≡ []
drop-zeros i = ap (λ k. drop k (zeros i)) (sym (length-zeros i)) ∙ drop-length (zeros i)

value-all : (i n : ℕ) → n < 2 ^ i → value_from 0 (digits i n (zeros i)) ≡ n
unfolding value_from
value-all i n lt =
    value-digits i n (zeros i) (omega (arith, length-zeros i))
    ∙ ap (value_from (low i n)) (drop-zeros i)
    ∙ low-all i n lt

-- Read back in base 2, the digits of a word are the word.
pub to_binary-value :
    (a b c : ℕ)
    → a < 2 ^ 8
    → b < 2 ^ 16
    → c < 2 ^ 32
    → (value_from 0 (uint8_to_binary a) ≡ a)
      × (value_from 0 (uint16_to_binary b) ≡ b)
      × (value_from 0 (uint32_to_binary c) ≡ c)
unfolding uint8_to_binary uint16_to_binary uint32_to_binary
to_binary-value a b c ha hb hc = (value-all 8 a ha, value-all 16 b hb, value-all 32 c hc)
