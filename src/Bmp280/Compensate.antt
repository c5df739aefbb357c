-- ===== src/Bmp280/Compensate.antt =====
-- bmp280.c: the compensation formulas of the sensor's data sheet. The arithmetic on `int32_t` and
-- `int64_t` wraps around.
use esp32_s3_i2c_mqtt_machba.Base.{ℕ, ◌+◌, ◌*◌, ◌/◌, ◌^◌, Bool, ◌&&◌, List, get_or, if◌then◌else◌}
use esp32_s3_i2c_mqtt_machba.Base.Int.{ℤ, pos, ◌+ℤ◌, ◌-ℤ◌, ◌*ℤ◌, leb_ℤ, shr_ℤ, div_ℤ, mod_ℤ}
use esp32_s3_i2c_mqtt_machba.Base.Word.{int32, int64}

-- `i2c_bmp280_cal_factors_t`, with the values of the signed members.
pub record CalFactors : Type 0 where
  pub dig_t1 : ℤ
  pub dig_t2 : ℤ
  pub dig_t3 : ℤ
  pub dig_p1 : ℤ
  pub dig_p2 : ℤ
  pub dig_p3 : ℤ
  pub dig_p4 : ℤ
  pub dig_p5 : ℤ
  pub dig_p6 : ℤ
  pub dig_p7 : ℤ
  pub dig_p8 : ℤ
  pub dig_p9 : ℤ

-- The operators of C on `int32_t`, then on `int64_t`.
infixl 65 ◌+₃₂◌ ◌-₃₂◌ ◌+₆₄◌ ◌-₆₄◌
infixl 70 ◌*₃₂◌ ◌*₆₄◌
abbrev pub ◌+₃₂◌ : ℤ → ℤ → ℤ
a +₃₂ b = int32 (a +ℤ b)

abbrev pub ◌-₃₂◌ : ℤ → ℤ → ℤ
a -₃₂ b = int32 (a -ℤ b)

abbrev pub ◌*₃₂◌ : ℤ → ℤ → ℤ
a *₃₂ b = int32 (a *ℤ b)

abbrev ◌+₆₄◌ : ℤ → ℤ → ℤ
a +₆₄ b = int64 (a +ℤ b)

abbrev ◌-₆₄◌ : ℤ → ℤ → ℤ
a -₆₄ b = int64 (a -ℤ b)

abbrev ◌*₆₄◌ : ℤ → ℤ → ℤ
a *₆₄ b = int64 (a *ℤ b)

abbrev shl64 : ℤ → ℕ → ℤ
shl64 a k = a *₆₄ pos (2 ^ k)

-- `fine_temperature`, which `i2c_bmp280_compensate_temperature` stores.
unfoldable pub fine_temperature : CalFactors → ℤ → ℤ
fine_temperature cal adc =
    let var1 = shr_ℤ ((shr_ℤ adc 3 -₃₂ cal.dig_t1 *₃₂ pos 2) *₃₂ cal.dig_t2) 11 in
    let from_t1 = shr_ℤ adc 4 -₃₂ cal.dig_t1 in
    let var2 = shr_ℤ (shr_ℤ (from_t1 *₃₂ from_t1) 12 *₃₂ cal.dig_t3) 14 in var1 +₃₂ var2

-- `i2c_bmp280_compensate_temperature`: what it returns, in hundredths of a degree, and what it
-- stores.
unfoldable pub i2c_bmp280_compensate_temperature : CalFactors → ℤ → ℤ × ℤ
unfolding fine_temperature
i2c_bmp280_compensate_temperature cal adc =
    let fine = fine_temperature cal adc in (shr_ℤ (fine *₃₂ pos 5 +₃₂ pos 128) 8, fine)

-- The divisor of the pressure formula, which is tested for zero.
unfoldable pub pressure_divisor : CalFactors → ℤ → ℤ
pressure_divisor cal fine =
    let var1 = fine -₆₄ pos 128000 in
    let sum = shr_ℤ (var1 *₆₄ var1 *₆₄ cal.dig_p3) 8 +₆₄ shl64 (var1 *₆₄ cal.dig_p2) 12 in
    shr_ℤ ((pos (2 ^ 47) +₆₄ sum) *₆₄ cal.dig_p1) 33

abbrev pub is_zero : ℤ → Bool
is_zero a = leb_ℤ a (pos 0) && leb_ℤ (pos 0) a

-- `i2c_bmp280_compensate_pressure`, in 256ths of a pascal.
unfoldable pub i2c_bmp280_compensate_pressure : CalFactors → ℤ → ℤ → ℕ
unfolding pressure_divisor
i2c_bmp280_compensate_pressure cal adc fine =
    let var1 = fine -₆₄ pos 128000 in
    let var2 =
      var1 *₆₄ var1 *₆₄ cal.dig_p6 +₆₄ shl64 (var1 *₆₄ cal.dig_p5) 17 +₆₄ shl64 cal.dig_p4 35 in
    let divisor = pressure_divisor cal fine in
    if is_zero divisor
    then 0
    else let p = int64 (div_ℤ ((shl64 (pos 1048576 -₃₂ adc) 31 -₆₄ var2) *₆₄ pos 3125) divisor) in
      let var3 = shr_ℤ (cal.dig_p9 *₆₄ shr_ℤ p 13 *₆₄ shr_ℤ p 13) 25 in
      let var4 = shr_ℤ (cal.dig_p8 *₆₄ p) 19 in
      mod_ℤ (shr_ℤ (p +₆₄ var3 +₆₄ var4) 8 +₆₄ cal.dig_p7 *₆₄ pos 16) (2 ^ 32)

-- The 20-bit value of three bytes of raw data, from the byte `i` on.
unfoldable pub raw20 : List ℕ → ℕ → ℕ
raw20 bytes i =
    get_or bytes i 0 * 2 ^ 12 + get_or bytes (i + 1) 0 * 2 ^ 4 + get_or bytes (i + 2) 0 / 2 ^ 4
