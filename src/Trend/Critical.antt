-- ===== src/Trend/Critical.antt =====
-- scalar_trend.c: the inverse of the t-distribution, which gives the critical value of the test.
use esp32_s3_i2c_mqtt_machba.Base.{ℕ, zero, suc, List, [], ◌∷◌, if◌then◌else◌}
use esp32_s3_i2c_mqtt_machba.Float.{Fp}

module _ {F D : Type 0} (fp : Fp F D) where
  -- 0.0001 and 0.9999 stand for arguments that are out of range.
  unfoldable pub clamp_probability : D → D
  clamp_probability x =
      if fp.le x (fp.of_nat 0)
      then fp.lit 1 4
      else if fp.le (fp.of_nat 1) x
      then fp.lit 9999 4
      else x

  -- The loop over the coefficients `c` and `d`: both sums.
  unfoldable pub q_sums : D → List (D × D) → D → D → D → D × D
  q_sums tempo [] xp sum1 sum2 = (sum1, sum2)
  q_sums tempo ((c, d) ∷ rest) xp sum1 sum2 =
      q_sums tempo rest (fp.mul xp tempo) (fp.add sum1 (fp.mul c xp)) (fp.add sum2 (fp.mul d xp))

  abbrev coefficients : List (D × D)
  coefficients =
      (fp.lit 2515517 6, fp.of_nat 1)
      ∷ (fp.lit 802853 6, fp.lit 1432788 6)
      ∷ (fp.lit 10328 6, fp.lit 189269 6)
      ∷ (fp.of_nat 0, fp.lit 1308 6)
      ∷ []

  -- `q_inv`
  unfoldable pub q_inv : D → D
  unfolding clamp_probability q_sums
  q_inv x =
      let xa = clamp_probability x in
      let half = fp.lit 5 1 in
      let one = fp.of_nat 1 in
      let y = if fp.lt xa half then xa else fp.sub one xa in
      let tempo = fp.sqrt (fp.log (fp.div one (fp.mul y y))) in
      let (sum1, sum2) = q_sums tempo coefficients one (fp.of_nat 0) (fp.of_nat 0) in
      let result = fp.sub tempo (fp.div sum1 sum2) in
      if fp.lt half xa then fp.neg result else result

  -- `Pwr[k]`, for k from 1.
  unfoldable pub pwr : D → ℕ → D
  pwr xq zero = xq
  pwr xq (suc zero) = xq
  pwr xq (suc (suc k)) = fp.mul (pwr xq (suc k)) xq

  -- A coefficient times a power.
  abbrev times : ℕ → D → D
  times n a = fp.mul (fp.of_nat n) a

  -- `term[1]` to `term[4]`
  unfoldable pub terms : D → List D
  unfolding pwr
  terms xq =
      fp.mul (fp.lit 25 2) (fp.add (pwr xq 3) (pwr xq 1))
      ∷ fp.div (fp.add (fp.add (times 5 (pwr xq 5)) (times 16 (pwr xq 3))) (times 3 (pwr xq 1)))
          (fp.of_nat 96)
      ∷ fp.div
          (fp.sub (fp.add (fp.add (times 3 (pwr xq 7)) (times 19 (pwr xq 7))) (times 17 (pwr xq 3)))
            (times 15 (pwr xq 1)))
          (fp.of_nat 384)
      ∷ fp.div
          (fp.sub
            (fp.sub
              (fp.add (fp.add (times 79 (pwr xq 9)) (times 776 (pwr xq 7))) (times 1482 (pwr xq 5)))
              (times 1920 (pwr xq 3)))
            (times 945 (pwr xq 1)))
          (fp.of_nat 92160)
      ∷ []

  -- The loop that adds up the terms.
  unfoldable pub t_sum : D → List D → D → D → D
  t_sum df [] xp sum = sum
  t_sum df (term ∷ rest) xp sum =
      let xp' = fp.mul xp df in t_sum df rest xp' (fp.add sum (fp.div term xp'))

  -- `t_inv`
  unfoldable pub t_inv : D → D → D
  unfolding clamp_probability q_inv terms t_sum
  t_inv x df = let xq = q_inv (clamp_probability x) in t_sum df (terms xq) (fp.of_nat 1) xq
