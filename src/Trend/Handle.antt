-- ===== src/Trend/Handle.antt =====
-- scalar_trend.c: the handle and its operations.
use esp32_s3_i2c_mqtt_machba.Base.{
  ℕ, ◌-◌, Bool, true, false, Option, none, some, ltb, leb, if◌then◌else◌,
}
use esp32_s3_i2c_mqtt_machba.Esp.{EspErr, esp_ok, esp_err_no_mem, esp_err_invalid_arg, Os}
use esp32_s3_i2c_mqtt_machba.Float.{Fp}
use esp32_s3_i2c_mqtt_machba.Window.{Window, push, purge, cleared}
use esp32_s3_i2c_mqtt_machba.Trend.Critical.{t_inv}
use esp32_s3_i2c_mqtt_machba.Trend.Fit.{TrendCode, unknown, fit}

-- `struct scalar_trend_t`
pub record Trend (F D : Type 0) : Type 0 where
  pub critical_t : D
  pub window : Window F

module _ {F D : Type 0} (fp : Fp F D) where
  -- The second half of `scalar_trend_analysis`, on the handle with the new sample.
  unfoldable pub verdict : Trend F D → TrendCode
  verdict t =
      let w = t.window in
      if ltb w.samples_count w.samples_size
      then unknown
      else fit fp t.critical_t w.samples_size w.samples

  -- `scalar_trend_analysis`: the status, the handle, and what `*code` holds.
  unfoldable pub scalar_trend_analysis :
      Option (Trend F D) → F → TrendCode → EspErr × Option (Trend F D) × TrendCode
  scalar_trend_analysis none sample out = (esp_err_invalid_arg, none, out)
  scalar_trend_analysis (some t) sample out =
      let t' : Trend F D = record t { window = push fp.f_nan sample t.window } in
      (esp_ok, some t', verdict t')

  -- `scalar_trend_reset`
  unfoldable pub scalar_trend_reset : Option (Trend F D) → EspErr × Option (Trend F D)
  scalar_trend_reset none = (esp_err_invalid_arg, none)
  scalar_trend_reset (some t) = (esp_ok, some (record t { window = purge fp.f_nan t.window }))

  -- The handle that an initialization makes: the critical value is of a two-tailed test at 5 %.
  unfoldable pub new_trend : ℕ → Trend F D
  new_trend size = record {
    critical_t = fp.fabs (t_inv fp (fp.div (fp.lit 5 2) (fp.of_nat 2)) (fp.of_nat (size - 2)));
    window = cleared fp.f_zero size;
  }

  module _ {W : Type 0} (os : Os W) where
    -- The allocation of the samples, once the handle has its memory.
    unfoldable pub init_samples :
        ℕ → Option (Trend F D) → Bool × W → EspErr × Option (Trend F D) × W
    init_samples size out (true, w) = (esp_ok, some (new_trend size), w)
    init_samples size out (false, w) = (esp_err_no_mem, out, os.free w)

    -- The allocation of the handle.
    unfoldable pub init_handle : ℕ → Option (Trend F D) → Bool × W → EspErr × Option (Trend F D) × W
    unfolding init_samples
    init_handle size out (true, w) = init_samples size out (os.calloc w)
    init_handle size out (false, w) = (esp_err_no_mem, out, w)

    -- `scalar_trend_init`: the status, and what the output pointer holds, which held `out`.
    unfoldable pub scalar_trend_init : ℕ → Option (Trend F D) → W → EspErr × Option (Trend F D) × W
    unfolding init_handle
    scalar_trend_init size out w =
        if leb size 2 then (esp_err_invalid_arg, out, w) else init_handle size out (os.calloc w)

    -- `scalar_trend_del` on a handle from `scalar_trend_init`, whose samples are never null.
    unfoldable pub scalar_trend_del : Option (Trend F D) → W → EspErr × W
    scalar_trend_del none w = (esp_err_invalid_arg, w)
    scalar_trend_del (some _) w = (esp_ok, os.free (os.free w))
