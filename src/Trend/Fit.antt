-- ===== src/Trend/Fit.antt =====
-- scalar_trend.c: the line of best fit through a full array of samples, and the test on its slope.
use esp32_s3_i2c_mqtt_machba.Base.{ℕ, zero, suc, List, get_or, if◌then◌else◌}
use esp32_s3_i2c_mqtt_machba.Float.{Fp}

-- `scalar_trend_codes_t`
pub data TrendCode : Type 0 where
  unknown rising steady falling : TrendCode

-- The sums that the first loop accumulates.
pub record Sums (D : Type 0) : Type 0 where
  pub sum_x : D
  pub sum_xx : D
  pub sum_y : D
  pub sum_xy : D

module _ {F D : Type 0} (fp : Fp F D) where
  -- One round of the first loop. A slot that does not exist would read as NAN.
  abbrev pub add_sample : ℕ → D → Sums D → Sums D
  add_sample i y s =
      let x = fp.mul (fp.of_nat 1) (fp.of_nat i) in
      record {
        sum_x = fp.add s.sum_x x;
        sum_xx = fp.add s.sum_xx (fp.mul x x);
        sum_y = fp.add s.sum_y y;
        sum_xy = fp.add s.sum_xy (fp.mul x y);
      }

  -- The first loop, on the rounds that are left.
  unfoldable pub sums_from : ℕ → ℕ → List F → Sums D → Sums D
  sums_from zero i samples s = s
  sums_from (suc n) i samples s =
      sums_from n (suc i) samples (add_sample i (fp.widen (get_or samples i fp.f_nan)) s)

  -- The second loop: the sum of the squared residuals.
  unfoldable pub sse_from : ℕ → ℕ → List F → D → D → D → D
  sse_from zero i samples slope intercept sse = sse
  sse_from (suc n) i samples slope intercept sse =
      let residual =
        fp.sub (fp.widen (get_or samples i fp.f_nan))
          (fp.add intercept (fp.mul slope (fp.of_nat i))) in
      sse_from n (suc i) samples slope intercept (fp.add sse (fp.mul residual residual))

  abbrev pub no_sums : Sums D
  no_sums = record {
    sum_x = fp.of_nat 0;
    sum_xx = fp.of_nat 0;
    sum_y = fp.of_nat 0;
    sum_xy = fp.of_nat 0;
  }

  abbrev pub slope_of : D → Sums D → D
  slope_of n s =
      fp.div (fp.sub (fp.mul s.sum_x s.sum_y) (fp.mul n s.sum_xy))
        (fp.sub (fp.mul s.sum_x s.sum_x) (fp.mul n s.sum_xx))

  -- `tObserved`
  abbrev pub t_observed : D → D → D → Sums D → D
  t_observed n slope sse s = fp.fabs (
      fp.div slope (
        fp.div (fp.sqrt (fp.div sse (fp.sub n (fp.of_nat 2))))
          (fp.sqrt (fp.sub s.sum_xx (fp.div (fp.mul s.sum_x s.sum_x) n)))))

  -- The decision on the slope.
  abbrev pub decide_trend : D → D → D → TrendCode
  decide_trend critical_t slope observed =
      if fp.lt critical_t observed
      then (if fp.lt slope (fp.of_nat 0) then falling else rising)
      else steady

  -- Steps 1 and 2 of `scalar_trend_analysis`, on an array of `size` samples.
  unfoldable pub fit : D → ℕ → List F → TrendCode
  fit critical_t size samples =
      let n = fp.mul (fp.of_nat 1) (fp.of_nat size) in
      let s = sums_from size 0 samples no_sums in
      let slope = slope_of n s in
      let intercept = fp.div (fp.sub s.sum_y (fp.mul slope s.sum_x)) n in
      let sse = sse_from size 0 samples slope intercept (fp.of_nat 0) in
      decide_trend critical_t slope (t_observed n slope sse s)
