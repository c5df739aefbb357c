-- ===== src/I2c/Preserves.antt =====
-- Calls that preserve a predicate on the handle.
use esp32_s3_i2c_mqtt_machba.Base.{◌≡◌, refl, Option, none, some}
use esp32_s3_i2c_mqtt_machba.Esp.{
  EspErr, esp_ok, esp_err_no_mem, esp_err_invalid_arg, esp_err_invalid_state, esp_err_timeout,
  esp_err_invalid_version, esp_err_not_supported, idf,
}
use esp32_s3_i2c_mqtt_machba.I2c.Action.{
  Outcome, ret, fail, aborted, out_of_fuel, Dev, Action, continue, settle, esp_arg_check, raise,
  modify, pure, effect, status, status_with, ◌>>=◌,
}

pub record Preserves {H W A : Type 0} (P : Option H → Type 0) (m : Action H W A) : Type 0 where
  pub preserves : (s : Dev H W) → P s.handle → P (m s).1.handle

settle-handle :
    {H W A : Type 0} (s : Dev H W) (e : EspErr) (a : A) (w : W)
    → (settle s e a w).1.handle ≡ s.handle
settle-handle s esp_ok a w = refl
settle-handle s esp_err_no_mem a w = refl
settle-handle s esp_err_invalid_arg a w = refl
settle-handle s esp_err_invalid_state a w = refl
settle-handle s esp_err_timeout a w = refl
settle-handle s esp_err_invalid_version a w = refl
settle-handle s esp_err_not_supported a w = refl
settle-handle s (idf n) a w = refl

module _ {H W : Type 0} {P : Option H → Type 0} where
  continue-Preserves :
      {A B : Type 0} (m : Outcome A × Dev H W) (f : A → Action H W B)
      → ((a : A) → Preserves P (f a))
      → P m.1.handle
      → P (continue m f).1.handle
  continue-Preserves (ret a, s) f rest p = (rest a).preserves s p
  continue-Preserves (fail e, s) f rest p = p
  continue-Preserves (aborted e, s) f rest p = p
  continue-Preserves (out_of_fuel, s) f rest p = p

  pub bind-Preserves :
      {A B : Type 0} {m : Action H W A} {f : A → Action H W B}
      → Preserves P m
      → ((a : A) → Preserves P (f a))
      → Preserves P (m >>= f)
  unfolding ◌>>=◌
  bind-Preserves {m} {f} first rest = record {
    preserves = λ s p. continue-Preserves (m s) f rest (first.preserves s p);
  }

  pub pure-Preserves : {A : Type 0} (a : A) → Preserves {W = W} P (pure a)
  unfolding pure
  pure-Preserves a = record { preserves = λ s p. p }

  pub arg_check-Preserves : Preserves {W = W} P esp_arg_check
  unfolding esp_arg_check pure raise
  arg_check-Preserves = record { preserves = λ s p. from s.handle s.world p }
    where
      from :
          (h : Option H) (w : W)
          → P h
          → P (esp_arg_check (record { handle = h; world = w })).1.handle
      from none w p = p
      from (some h) w p = p

  pub modify-Preserves :
      (f : H → H) → ((h : H) → P (some h) → P (some (f h))) → Preserves {W = W} P (modify f)
  unfolding modify pure
  modify-Preserves f keeps = record { preserves = λ s p. from s.handle s.world p }
    where
      from : (h : Option H) (w : W) → P h → P (modify f (record { handle = h; world = w })).1.handle
      from none w p = p
      from (some h) w p = keeps h p

  pub effect-Preserves : (f : W → W) → Preserves P (effect f)
  unfolding effect pure
  effect-Preserves f = record { preserves = λ s p. p }

  pub status_with-Preserves : {A : Type 0} (f : W → EspErr × A × W) → Preserves P (status_with f)
  unfolding status_with
  status_with-Preserves f = record { preserves = λ s p. rw (settle-handle s _ _ _) p }

  pub status-Preserves : (f : W → EspErr × W) → Preserves P (status f)
  unfolding status
  status-Preserves f = record { preserves = λ s p. rw (settle-handle s _ _ _) p }
