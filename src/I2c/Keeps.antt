-- ===== src/I2c/Keeps.antt =====
-- Calls that keep a number of the world, such as that of the live blocks of memory.
use esp32_s3_i2c_mqtt_machba.Base.{
  ℕ, Bool, true, false, ◌≡◌, ◌∙◌, refl, ap, if◌then◌else◌, Option, none, some,
}
use esp32_s3_i2c_mqtt_machba.Esp.{EspErr}
use esp32_s3_i2c_mqtt_machba.I2c.Action.{
  Outcome, ret, fail, aborted, out_of_fuel, Dev, Action, continue, abort_on_fail, esp_arg_check,
  esp_error_check, raise, modify, pure, effect, status, status_with, ◌>>=◌,
}
use esp32_s3_i2c_mqtt_machba.I2c.Time.{settle-world}

pub record Keeps {H W A : Type 0} (live : W → ℕ) (m : Action H W A) : Type 0 where
  pub keeps : (s : Dev H W) → live (m s).1.world ≡ live s.world

module _ {H W : Type 0} {live : W → ℕ} where
  continue-Keeps :
      {A B : Type 0} (m : Outcome A × Dev H W) (f : A → Action H W B)
      → ((a : A) → Keeps live (f a))
      → live (continue m f).1.world ≡ live m.1.world
  continue-Keeps (ret a, s) f rest = (rest a).keeps s
  continue-Keeps (fail e, s) f rest = refl
  continue-Keeps (aborted e, s) f rest = refl
  continue-Keeps (out_of_fuel, s) f rest = refl

  pub bind-Keeps :
      {A B : Type 0} {m : Action H W A} {f : A → Action H W B}
      → Keeps live m
      → ((a : A) → Keeps live (f a))
      → Keeps live (m >>= f)
  unfolding ◌>>=◌
  bind-Keeps {m} {f} first rest = record {
    keeps = λ s. continue-Keeps (m s) f rest ∙ first.keeps s;
  }

  pub pure-Keeps : {A : Type 0} (a : A) → Keeps {H = H} live (pure a)
  unfolding pure
  pure-Keeps a = record { keeps = λ s. refl }

  pub check-Keeps :
      {A : Type 0} (b : Bool) (a : A) (e : EspErr)
      → Keeps {H = H} live (if b then pure a else raise e)
  unfolding pure raise
  check-Keeps true a e = record { keeps = λ s. refl }
  check-Keeps false a e = record { keeps = λ s. refl }

  pub arg_check-Keeps : Keeps {H = H} live esp_arg_check
  unfolding esp_arg_check pure raise
  arg_check-Keeps = record { keeps = λ s. from s.handle s.world }
    where
      from :
          (h : Option H) (w : W)
          → live (esp_arg_check (record { handle = h; world = w })).1.world ≡ live w
      from none w = refl
      from (some h) w = refl

  pub modify-Keeps : (f : H → H) → Keeps live (modify f)
  unfolding modify pure
  modify-Keeps f = record { keeps = λ s. from s.handle s.world }
    where
      from :
          (h : Option H) (w : W)
          → live (modify f (record { handle = h; world = w })).1.world ≡ live w
      from none w = refl
      from (some h) w = refl

  pub effect-Keeps : (f : W → W) → ((w : W) → live (f w) ≡ live w) → Keeps {H = H} live (effect f)
  unfolding effect pure
  effect-Keeps f e = record { keeps = λ s. e s.world }

  pub status_with-Keeps :
      {A : Type 0} (f : W → EspErr × A × W)
      → ((w : W) → live (f w).2 ≡ live w)
      → Keeps {H = H} live (status_with f)
  unfolding status_with
  status_with-Keeps f e = record { keeps = λ s. ap live (settle-world s _ _ _) ∙ e s.world }

  pub status-Keeps :
      (f : W → EspErr × W) → ((w : W) → live (f w).1 ≡ live w) → Keeps {H = H} live (status f)
  unfolding status
  status-Keeps f e = record { keeps = λ s. ap live (settle-world s _ _ _) ∙ e s.world }

  pub error_check-Keeps :
      {A : Type 0} {m : Action H W A} → Keeps live m → Keeps live (esp_error_check m)
  unfolding esp_error_check
  error_check-Keeps {A} {m} first = record { keeps = λ s. same (m s) ∙ first.keeps s }
    where
      same : (r : Outcome A × Dev H W) → live (abort_on_fail r).1.world ≡ live r.1.world
      same (ret a, s) = refl
      same (fail e, s) = refl
      same (aborted e, s) = refl
      same (out_of_fuel, s) = refl
