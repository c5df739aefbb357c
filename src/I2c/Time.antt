-- ===== src/I2c/Time.antt =====
-- Calls that let the timer go on.
use esp32_s3_i2c_mqtt_machba.Base.{ℕ, ◌≤◌, ◌<◌, ◌≡◌, refl, Option, none, some, arith}
use esp32_s3_i2c_mqtt_machba.Esp.{
  EspErr, esp_ok, esp_err_no_mem, esp_err_invalid_arg, esp_err_invalid_state, esp_err_timeout,
  esp_err_invalid_version, esp_err_not_supported, idf,
}
use esp32_s3_i2c_mqtt_machba.I2c.Action.{
  Outcome, ret, fail, aborted, out_of_fuel, Dev, Action, continue, settle, esp_arg_check, raise,
  modify, pure, effect, status_with, ◌>>=◌,
}

pub settle-world :
    {H W A : Type 0} (s : Dev H W) (e : EspErr) (a : A) (w : W) → (settle s e a w).1.world ≡ w
settle-world s esp_ok a w = refl
settle-world s esp_err_no_mem a w = refl
settle-world s esp_err_invalid_arg a w = refl
settle-world s esp_err_invalid_state a w = refl
settle-world s esp_err_timeout a w = refl
settle-world s esp_err_invalid_version a w = refl
settle-world s esp_err_not_supported a w = refl
settle-world s (idf n) a w = refl

-- An action after which the timer is not behind, and one after which it is ahead, from a state on.
pub record Forward {H W A : Type 0} (now : W → ℕ) (m : Action H W A) : Type 0 where
  pub forward : (s : Dev H W) → now s.world ≤ now (m s).1.world

pub record Takes {H W A : Type 0} (now : W → ℕ) (s : Dev H W) (m : Action H W A) : Type 0 where
  pub takes : now s.world < now (m s).1.world

module _ {H W : Type 0} {now : W → ℕ} where
  continue-Forward :
      {A B : Type 0} (m : Outcome A × Dev H W) (f : A → Action H W B)
      → ((a : A) → Forward now (f a))
      → now m.1.world ≤ now (continue m f).1.world
  continue-Forward (ret a, s) f rest = (rest a).forward s
  continue-Forward (fail e, s) f rest = omega arith
  continue-Forward (aborted e, s) f rest = omega arith
  continue-Forward (out_of_fuel, s) f rest = omega arith

  pub bind-Forward :
      {A B : Type 0} {m : Action H W A} {f : A → Action H W B}
      → Forward now m
      → ((a : A) → Forward now (f a))
      → Forward now (m >>= f)
  unfolding ◌>>=◌
  bind-Forward {m} {f} first rest = record {
    forward = λ s. omega (arith, first.forward s, continue-Forward (m s) f rest);
  }

  pub bind-Takes :
      {A B : Type 0} {m : Action H W A} {f : A → Action H W B} {s : Dev H W}
      → Takes now s m
      → ((a : A) → Forward now (f a))
      → Takes now s (m >>= f)
  unfolding ◌>>=◌
  bind-Takes {m} {f} {s} first rest = record {
    takes = omega (arith, first.takes, continue-Forward (m s) f rest);
  }

  pub arg_check-Takes :
      {B : Type 0} (f : H → Action H W B) {h : H} {w : W}
      → Takes now (record { handle = some h; world = w }) (f h)
      → Takes now (record { handle = some h; world = w }) (esp_arg_check >>= f)
  unfolding ◌>>=◌ esp_arg_check pure
  arg_check-Takes f t = record { takes = t.takes }

  pub pure-Forward : {A : Type 0} (a : A) → Forward {H = H} now (pure a)
  unfolding pure
  pure-Forward a = record { forward = λ s. omega arith }

  pub arg_check-Forward : Forward {H = H} now esp_arg_check
  unfolding esp_arg_check pure raise
  arg_check-Forward = record { forward = λ s. from s.handle s.world }
    where
      from :
          (h : Option H) (w : W)
          → now w ≤ now (esp_arg_check (record { handle = h; world = w })).1.world
      from none w = omega arith
      from (some h) w = omega arith

  pub modify-Forward : (f : H → H) → Forward now (modify f)
  unfolding modify pure
  modify-Forward f = record { forward = λ s. from s.handle s.world }
    where
      from :
          (h : Option H) (w : W) → now w ≤ now (modify f (record { handle = h; world = w })).1.world
      from none w = omega arith
      from (some h) w = omega arith

  pub effect-Forward : (f : W → W) → ((w : W) → now w ≤ now (f w)) → Forward {H = H} now (effect f)
  unfolding effect pure
  effect-Forward f e = record { forward = λ s. e s.world }

  pub status_with-Takes :
      {A : Type 0} (f : W → EspErr × A × W) (s : Dev H W)
      → now s.world < now (f s.world).2
      → Takes now s (status_with f)
  unfolding status_with
  status_with-Takes f s e = record { takes = rw (settle-world s _ _ _) e }
