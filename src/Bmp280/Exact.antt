-- ===== src/Bmp280/Exact.antt =====
-- bmp280.c, `i2c_bmp280_compensate_temperature`: the formula over the integers.
use esp32_s3_i2c_mqtt_machba.Base.{ℕ, ◌+◌, ◌*◌, ◌/◌, ◌^◌, ◌≤◌, ◌<◌, ◌≡◌, ◌∙◌, ap, arith}
use native.Mathlib.Nat.{mul-le-mul}
use esp32_s3_i2c_mqtt_machba.Base.Int.{
  ℤ, pos, negsuc, pos_part, neg_part, ◌+ℤ◌, ◌-ℤ◌, ◌*ℤ◌, shr_ℤ, mod_ℤ,
}
use esp32_s3_i2c_mqtt_machba.Base.Word.{int32}
use esp32_s3_i2c_mqtt_machba.Bmp280.Compensate.{
  ◌+₃₂◌, ◌-₃₂◌, ◌*₃₂◌, CalFactors, fine_temperature, i2c_bmp280_compensate_temperature,
}

abbrev pub abs : ℤ → ℕ
abs a = pos_part a + neg_part a

int32-of_small : (a : ℤ) → abs a < 2 ^ 31 → int32 a ≡ a
unfolding mod_ℤ
int32-of_small (pos n) h = ground arith
int32-of_small (negsuc n) h = ground arith

abs-add : (a b : ℤ) → abs (a +ℤ b) ≤ abs a + abs b
unfolding ◌+ℤ◌
abs-add (pos m) (pos n) = ground arith
abs-add (pos m) (negsuc n) = ground arith
abs-add (negsuc m) (pos n) = ground arith
abs-add (negsuc m) (negsuc n) = ground arith

abs-sub : (a b : ℤ) → abs (a -ℤ b) ≤ abs a + abs b
unfolding ◌-ℤ◌
abs-sub (pos m) (pos n) = ground arith
abs-sub (pos m) (negsuc n) = ground arith
abs-sub (negsuc m) (pos n) = ground arith
abs-sub (negsuc m) (negsuc n) = ground arith

abs-mul : (a b : ℤ) → abs (a *ℤ b) ≡ abs a * abs b
unfolding ◌*ℤ◌
abs-mul (pos m) (pos n) = grind arith
abs-mul (pos m) (negsuc n) = grind arith
abs-mul (negsuc m) (pos n) = grind arith
abs-mul (negsuc m) (negsuc n) = grind arith

abs-mul-le : (a b : ℤ) (p q : ℕ) → abs a ≤ p → abs b ≤ q → abs (a *ℤ b) ≤ p * q
abs-mul-le a b p q h k = rw (abs-mul a b) (mul-le-mul h k)

abs-shr_3 : (a : ℤ) → abs (shr_ℤ a 3) ≤ abs a / 2 ^ 3 + 1
unfolding shr_ℤ
abs-shr_3 (pos n) = ground arith
abs-shr_3 (negsuc n) = ground arith

abs-shr_11 : (a : ℤ) → abs (shr_ℤ a 11) ≤ abs a / 2 ^ 11 + 1
unfolding shr_ℤ
abs-shr_11 (pos n) = ground arith
abs-shr_11 (negsuc n) = ground arith

abs-shr_12 : (a : ℤ) → abs (shr_ℤ a 12) ≤ abs a / 2 ^ 12 + 1
unfolding shr_ℤ
abs-shr_12 (pos n) = ground arith
abs-shr_12 (negsuc n) = ground arith

abs-shr_14 : (a : ℤ) → abs (shr_ℤ a 14) ≤ abs a / 2 ^ 14 + 1
unfolding shr_ℤ
abs-shr_14 (pos n) = ground arith
abs-shr_14 (negsuc n) = ground arith

-- The two formulas of the data sheet over the integers, `shr_ℤ` being the division that rounds
-- down.
unfoldable pub exact_fine : CalFactors → ℤ → ℤ
exact_fine cal adc =
    let from_t1 = shr_ℤ adc 4 -ℤ cal.dig_t1 in
    let var1 = shr_ℤ ((shr_ℤ adc 3 -ℤ cal.dig_t1 *ℤ pos 2) *ℤ cal.dig_t2) 11 in
    var1 +ℤ shr_ℤ (shr_ℤ (from_t1 *ℤ from_t1) 12 *ℤ cal.dig_t3) 14

abbrev pub exact_temperature : CalFactors → ℤ → ℤ
exact_temperature cal adc = shr_ℤ (exact_fine cal adc *ℤ pos 5 +ℤ pos 128) 8

-- A raw value near the factor `dig_t1`, and the sizes of the factors.
pub record IsNear (cal : CalFactors) (n t : ℕ) : Type 0 where
  pub of_20_bits : n < 2 ^ 20
  pub of_16_bits : t < 2 ^ 16
  pub first : cal.dig_t1 ≡ pos t
  pub second : abs cal.dig_t2 ≤ 32768
  pub third : abs cal.dig_t3 ≤ 8192
  pub above : n / 16 ≤ t + 32767
  pub below : t ≤ n / 16 + 32767

module _ (cal : CalFactors) (n t : ℕ) (near : IsNear cal n t) where
  abbrev from_t1 : ℤ
  from_t1 = shr_ℤ (pos n) 4 -ℤ cal.dig_t1

  abbrev from_twice : ℤ
  from_twice = shr_ℤ (pos n) 3 -ℤ cal.dig_t1 *ℤ pos 2

  abs-from_t1 : abs from_t1 ≤ 32767
  unfolding shr_ℤ ◌-ℤ◌
  abs-from_t1 = rw near.first (ground (arith, near.above, near.below))

  abs-twice : abs (cal.dig_t1 *ℤ pos 2) ≤ 131072
  unfolding ◌*ℤ◌
  abs-twice = rw near.first (ground (arith, near.of_16_bits))

  abs-from_twice : abs from_twice ≤ 65535
  unfolding shr_ℤ ◌-ℤ◌ ◌*ℤ◌
  abs-from_twice = rw near.first (ground (arith, near.above, near.below))

  abbrev slope : ℤ
  slope = from_twice *ℤ cal.dig_t2

  abbrev square : ℤ
  square = from_t1 *ℤ from_t1

  abbrev curve : ℤ
  curve = shr_ℤ square 12 *ℤ cal.dig_t3

  abs-slope : abs slope ≤ 2147450880
  abs-slope = abs-mul-le from_twice cal.dig_t2 65535 32768 abs-from_twice near.second

  abs-square : abs square ≤ 1073676289
  abs-square = abs-mul-le from_t1 from_t1 32767 32767 abs-from_t1 abs-from_t1

  abs-curve : abs curve ≤ 2147360768
  abs-curve =
      abs-mul-le (shr_ℤ square 12) cal.dig_t3 262129 8192
        (omega (arith, abs-shr_12 square, abs-square)) near.third

  abs-exact_fine : abs (exact_fine cal (pos n)) ≤ 1179627
  unfolding exact_fine
  abs-exact_fine = omega (
    arith,
    abs-add (shr_ℤ slope 11) (shr_ℤ curve 14),
    abs-shr_11 slope,
    abs-shr_14 curve,
    abs-slope,
    abs-curve,
  )

  fine_temperature-exact : fine_temperature cal (pos n) ≡ exact_fine cal (pos n)
  unfolding fine_temperature exact_fine
  fine_temperature-exact =
      let twice = int32-of_small (cal.dig_t1 *ℤ pos 2) (omega (arith, abs-twice)) in
      let near_t1 = int32-of_small from_t1 (omega (arith, abs-from_t1)) in
      let near_twice = int32-of_small from_twice (omega (arith, abs-from_twice)) in
      let linear = int32-of_small slope (omega (arith, abs-slope)) in
      let squared = int32-of_small square (omega (arith, abs-square)) in
      let curved = int32-of_small curve (omega (arith, abs-curve)) in
      let sum = int32-of_small (exact_fine cal (pos n)) (omega (arith, abs-exact_fine)) in
      let var1 : (shr_ℤ (pos n) 3 -₃₂ cal.dig_t1 *₃₂ pos 2) *₃₂ cal.dig_t2 ≡ slope =
        ap (λ x. int32 (int32 (shr_ℤ (pos n) 3 -ℤ x) *ℤ cal.dig_t2)) twice
        ∙ ap (λ x. int32 (x *ℤ cal.dig_t2)) near_twice
        ∙ linear in
      let var2 : shr_ℤ (int32 from_t1 *₃₂ int32 from_t1) 12 *₃₂ cal.dig_t3 ≡ curve =
        ap (λ x. shr_ℤ (x *₃₂ x) 12 *₃₂ cal.dig_t3) near_t1
        ∙ ap (λ x. shr_ℤ x 12 *₃₂ cal.dig_t3) squared
        ∙ curved in
      ap (λ x. shr_ℤ x 11 +₃₂ shr_ℤ (shr_ℤ (int32 from_t1 *₃₂ int32 from_t1) 12 *₃₂ cal.dig_t3) 14)
        var1
      ∙ ap (λ x. shr_ℤ slope 11 +₃₂ shr_ℤ x 14) var2
      ∙ sum

  -- Where the raw value has 20 bits and the factor `dig_t1` 16, a sixteenth of the raw value is at
  -- most 32767 away from `dig_t1`, `dig_t2` is at most 32768 in size and `dig_t3` at most 8192, the
  -- compensation of the temperature wraps around in none of its 32-bit operations: it returns and
  -- stores what the formulas give over the integers, and what it stores is at most 1179627 in size.
  pub compensate_temperature-exact :
      (i2c_bmp280_compensate_temperature cal (pos n)
        ≡ (exact_temperature cal (pos n), exact_fine cal (pos n)))
      × (abs (exact_fine cal (pos n)) ≤ 1179627)
  unfolding i2c_bmp280_compensate_temperature
  compensate_temperature-exact =
      let fine = exact_fine cal (pos n) in
      let five = abs-mul-le fine (pos 5) 1179627 5 abs-exact_fine (omega arith) in
      let scaled = int32-of_small (fine *ℤ pos 5) (omega (arith, five)) in
      let rounded =
        int32-of_small (fine *ℤ pos 5 +ℤ pos 128)
          (omega (arith, five, abs-add (fine *ℤ pos 5) (pos 128))) in
      (
        ap (λ f. (shr_ℤ (f *₃₂ pos 5 +₃₂ pos 128) 8, f)) fine_temperature-exact
            ∙ ap (λ x. (shr_ℤ x 8, fine)) (ap (λ x. int32 (x +ℤ pos 128)) scaled ∙ rounded),
        abs-exact_fine,
      )
