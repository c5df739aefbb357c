-- ===== src/Trend/Poison.antt =====
-- What one sample that is not a number does to the trend.
use esp32_s3_i2c_mqtt_machba.Base.{
  ℕ, zero, suc, ◌+◌, ◌-◌, ◌≤◌, ◌<◌, ◌≡◌, ◌∙◌, refl, ap, false, List, length, get_or, get_or-drop,
  le→ltb_false, sym, arith,
}
use esp32_s3_i2c_mqtt_machba.Float.{Fp}
use esp32_s3_i2c_mqtt_machba.Float.Nan.{NanLaws}
use esp32_s3_i2c_mqtt_machba.Window.Contents.{recent}
use esp32_s3_i2c_mqtt_machba.Trend.Fit.{
  steady, Sums, add_sample, sums_from, no_sums, fit, slope_of, t_observed, decide_trend,
}
use esp32_s3_i2c_mqtt_machba.Trend.History.{trend_of}

module _ {F D : Type 0} (fp : Fp F D) (nan : D) (laws : NanLaws fp nan) where
  sum_y-keeps_nan :
      (n i : ℕ) (samples : List F) (s : Sums D)
      → s.sum_y ≡ nan
      → (sums_from fp n i samples s).sum_y ≡ nan
  unfolding sums_from
  sum_y-keeps_nan zero i samples s e = e
  sum_y-keeps_nan (suc n) i samples s e =
      let y = fp.widen (get_or samples i fp.f_nan) in
      sum_y-keeps_nan n (suc i) samples (add_sample fp i y s)
        (ap (λ a. fp.add a y) e ∙ laws.nan_add y)

  sum_y-meets_nan :
      (n i k : ℕ) (samples : List F) (s : Sums D)
      → k < n
      → get_or samples (i + k) fp.f_nan ≡ fp.f_nan
      → (sums_from fp n i samples s).sum_y ≡ nan
  unfolding sums_from
  sum_y-meets_nan zero i k samples s lt e = elim lt [ ]
  sum_y-meets_nan (suc n) i zero samples s lt e =
      let here : i + 0 ≡ i = omega arith in
      let y = fp.widen (get_or samples i fp.f_nan) in
      let y_nan : y ≡ nan =
        ap (λ j. fp.widen (get_or samples j fp.f_nan)) (sym here)
        ∙ ap fp.widen e
        ∙ laws.widen_nan in
      sum_y-keeps_nan n (suc i) samples (add_sample fp i y s)
        (ap (fp.add s.sum_y) y_nan ∙ laws.add_nan s.sum_y)
  sum_y-meets_nan (suc n) i (suc k) samples s lt e =
      let next : suc i + k ≡ i + suc k = omega arith in
      sum_y-meets_nan n (suc i) k samples (add_sample fp i (fp.widen (get_or samples i fp.f_nan)) s)
        (omega arith) (ap (λ j. get_or samples j fp.f_nan) next ∙ e)

  slope_of-nan : (n : D) (s : Sums D) → s.sum_y ≡ nan → slope_of fp n s ≡ nan
  slope_of-nan n s e =
      ap
        (λ a.
          fp.div (fp.sub a (fp.mul n s.sum_xy))
            (fp.sub (fp.mul s.sum_x s.sum_x) (fp.mul n s.sum_xx)))
        (ap (fp.mul s.sum_x) e ∙ laws.mul_nan s.sum_x)
      ∙ ap (λ a. fp.div a (fp.sub (fp.mul s.sum_x s.sum_x) (fp.mul n s.sum_xx))) (laws.nan_sub _)
      ∙ laws.nan_div _

  decide_trend-nan :
      (critical_t slope n sse : D) (s : Sums D)
      → slope ≡ nan
      → decide_trend fp critical_t slope (t_observed fp n slope sse s) ≡ steady
  decide_trend-nan critical_t slope n sse s e =
      let error =
        fp.div (fp.sqrt (fp.div sse (fp.sub n (fp.of_nat 2))))
          (fp.sqrt (fp.sub s.sum_xx (fp.div (fp.mul s.sum_x s.sum_x) n))) in
      let observed : t_observed fp n slope sse s ≡ nan =
        ap fp.fabs (ap (λ a. fp.div a error) e ∙ laws.nan_div error) ∙ laws.fabs_nan in
      let never : fp.lt critical_t (t_observed fp n slope sse s) ≡ false =
        ap (fp.lt critical_t) observed ∙ laws.lt_nan critical_t in
      rw never refl

  fit-nan :
      (critical_t : D) (size k : ℕ) (samples : List F)
      → k < size
      → get_or samples k fp.f_nan ≡ fp.f_nan
      → fit fp critical_t size samples ≡ steady
  unfolding fit
  fit-nan critical_t size k samples lt e =
      let at : 0 + k ≡ k = omega arith in
      let y_nan =
        sum_y-meets_nan size 0 k samples (no_sums fp) lt
          (ap (λ j. get_or samples j fp.f_nan) at ∙ e) in
      let n = fp.mul (fp.of_nat 1) (fp.of_nat size) in
      let s = sums_from fp size 0 samples (no_sums fp) in
      decide_trend-nan critical_t (slope_of fp n s) n _ s (slope_of-nan n s y_nan)

  -- A history of at least `size` samples with one NAN among the last `size` has the trend STEADY,
  -- whatever the other samples are.
  pub trend_of-nan :
      (critical_t : D) (size i : ℕ) (hist : List F)
      → size ≤ length hist
      → length hist - size ≤ i
      → i < length hist
      → get_or hist i fp.f_nan ≡ fp.f_nan
      → trend_of fp critical_t size hist ≡ steady
  unfolding trend_of
  trend_of-nan critical_t size i hist enough late lt e =
      let k = i - (length hist - size) in
      let at : length hist - size + k ≡ i = omega arith in
      let read =
        get_or-drop (length hist - size) k hist fp.f_nan
        ∙ ap (λ j. get_or hist j fp.f_nan) at
        ∙ e in
      rw (le→ltb_false (length hist) size enough)
        (fit-nan critical_t size k (recent size hist) (omega arith) read)
