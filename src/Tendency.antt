-- ===== src/Tendency.antt =====
-- components/esp_pressure_tendency: the pressure tendency over the samples of the last 3 hours.
-- A handle is `none` where the source has a null pointer; the struct of the source is `Window`.
pub mod History
mod Examples
use esp32_s3_i2c_mqtt_machba.Base.{
  ℕ, ◌-◌, Bool, true, false, ◌&&◌, Option, none, some, get_or, ltb, leb, if◌then◌else◌,
}
use esp32_s3_i2c_mqtt_machba.Esp.{EspErr, esp_ok, esp_err_no_mem, esp_err_invalid_arg, Os}
use esp32_s3_i2c_mqtt_machba.Float.{Fp}
use esp32_s3_i2c_mqtt_machba.Window.{Window, push, purge, cleared}

-- `pressure_tendency_codes_t`
pub data TendencyCode : Type 0 where
  unknown rising steady falling : TendencyCode

module _ {F D : Type 0} (fp : Fp F D) where
  -- The change over the window: its code, and what is reported of the change.
  unfoldable pub classify : F → TendencyCode × F
  classify delta =
      let d = fp.widen delta in
      let zero = fp.of_nat 0 in
      let one = fp.of_nat 1 in
      if fp.lt (fp.fabs d) one
      then (steady, delta)
      else if fp.lt d zero && fp.lt one (fp.fabs d)
      then (falling, delta)
      else if fp.lt zero d && fp.lt one (fp.fabs d)
      then (rising, delta)
      else (unknown, fp.f_nan)

  -- The second half of `pressure_tendency_analysis`, on the window with the new sample. A slot that
  -- does not exist would read as NAN.
  unfoldable pub verdict : Window F → TendencyCode × F
  verdict w =
      if ltb w.samples_count w.samples_size
      then (unknown, fp.f_nan)
      else classify
          (fp.f_sub (get_or w.samples (w.samples_size - 1) fp.f_nan) (get_or w.samples 0 fp.f_nan))

  -- `pressure_tendency_analysis`: the status, the handle, and what `*code` and `*change` hold.
  unfoldable pub pressure_tendency_analysis :
      Option (Window F) → F → TendencyCode × F → EspErr × Option (Window F) × (TendencyCode × F)
  pressure_tendency_analysis none sample out = (esp_err_invalid_arg, none, out)
  pressure_tendency_analysis (some w) sample out =
      let w' = push fp.f_nan sample w in (esp_ok, some w', verdict w')

  -- `pressure_tendency_reset`
  unfoldable pub pressure_tendency_reset : Option (Window F) → EspErr × Option (Window F)
  pressure_tendency_reset none = (esp_err_invalid_arg, none)
  pressure_tendency_reset (some w) = (esp_ok, some (purge fp.f_nan w))

  module _ {W : Type 0} (os : Os W) where
    -- The allocation of the samples, once the handle has its memory.
    unfoldable pub init_samples : ℕ → Option (Window F) → Bool × W → EspErr × Option (Window F) × W
    init_samples size out (true, w) = (esp_ok, some (cleared fp.f_zero size), w)
    init_samples size out (false, w) = (esp_err_no_mem, out, os.free w)

    -- The allocation of the handle.
    unfoldable pub init_handle : ℕ → Option (Window F) → Bool × W → EspErr × Option (Window F) × W
    unfolding init_samples
    init_handle size out (true, w) = init_samples size out (os.calloc w)
    init_handle size out (false, w) = (esp_err_no_mem, out, w)

    -- `pressure_tendency_init`: the status, and what the output pointer holds, which held `out`.
    unfoldable pub pressure_tendency_init :
        ℕ → Option (Window F) → W → EspErr × Option (Window F) × W
    unfolding init_handle
    pressure_tendency_init size out w =
        if leb size 2 then (esp_err_invalid_arg, out, w) else init_handle size out (os.calloc w)

    -- `pressure_tendency_del` on a handle from `pressure_tendency_init`, whose samples are never
    -- null: the samples and the handle are freed.
    unfoldable pub pressure_tendency_del : Option (Window F) → W → EspErr × W
    pressure_tendency_del none w = (esp_err_invalid_arg, w)
    pressure_tendency_del (some _) w = (esp_ok, os.free (os.free w))
