-- ===== src/I2c/Ends.antt =====
-- Calls that do not run out of fuel, and calls that do not return an error code.
use esp32_s3_i2c_mqtt_machba.Base.{Bool, true, false, ◌≡◌, ◌⊎◌, inl, inr, refl, Option, none, some}
use esp32_s3_i2c_mqtt_machba.Esp.{
  EspErr, esp_ok, esp_err_no_mem, esp_err_invalid_arg, esp_err_invalid_state, esp_err_timeout,
  esp_err_invalid_version, esp_err_not_supported, idf,
}
use esp32_s3_i2c_mqtt_machba.I2c.Action.{
  Outcome, ret, fail, aborted, out_of_fuel, Dev, Action, continue, settle, abort_on_fail,
  esp_arg_check, raise, modify, pure, effect, gets, status_with, ◌>>=◌,
}

module _ {A : Type 0} where
  abbrev pub runs_out : Outcome A → Bool
  runs_out out_of_fuel = true
  runs_out _ = false

  abbrev pub fails : Outcome A → Bool
  fails (fail e) = true
  fails _ = false

module _ {H W A B : Type 0} where
  -- A `do` block ends if its first line does and the rest does on whatever that leaves.
  pub continue-ends :
      (m : Outcome A × Dev H W) (f : A → Action H W B)
      → runs_out m.0 ≡ false
      → ((a : A) → runs_out (f a m.1).0 ≡ false)
      → runs_out (continue m f).0 ≡ false
  continue-ends (ret a, s) f first rest = rest a
  continue-ends (fail e, s) f first rest = refl
  continue-ends (aborted e, s) f first rest = refl
  continue-ends (out_of_fuel, s) f first rest = first

  pub continue-fails :
      (m : Outcome A × Dev H W) (f : A → Action H W B)
      → fails m.0 ≡ true
      → runs_out (continue m f).0 ≡ false
  continue-fails (ret a, s) f failed = cc
  continue-fails (fail e, s) f failed = refl
  continue-fails (aborted e, s) f failed = refl
  continue-fails (out_of_fuel, s) f failed = cc

  -- After `ESP_ERROR_CHECK` no error code is left to return.
  pub continue-abort_on_fail :
      (m : Outcome A × Dev H W) (f : A → Action H W B)
      → ((a : A) (s : Dev H W) → fails (f a s).0 ≡ false)
      → fails (continue (abort_on_fail m) f).0 ≡ false
  continue-abort_on_fail (ret a, s) f rest = rest a s
  continue-abort_on_fail (fail e, s) f rest = refl
  continue-abort_on_fail (aborted e, s) f rest = refl
  continue-abort_on_fail (out_of_fuel, s) f rest = refl

module _ {H W : Type 0} where
  pub settle-ends :
      {A : Type 0} (s : Dev H W) (e : EspErr) (a : A) (w : W) → runs_out (settle s e a w).0 ≡ false
  settle-ends s esp_ok a w = refl
  settle-ends s esp_err_no_mem a w = refl
  settle-ends s esp_err_invalid_arg a w = refl
  settle-ends s esp_err_invalid_state a w = refl
  settle-ends s esp_err_timeout a w = refl
  settle-ends s esp_err_invalid_version a w = refl
  settle-ends s esp_err_not_supported a w = refl
  settle-ends s (idf n) a w = refl

-- An action that does not run out of fuel.
pub record Ends {H W A : Type 0} (m : Action H W A) : Type 0 where
  pub ends : (s : Dev H W) → runs_out (m s).0 ≡ false

module _ {H W : Type 0} where
  pub bind-Ends :
      {A B : Type 0} {m : Action H W A} {f : A → Action H W B}
      → Ends m
      → ((a : A) → Ends (f a))
      → Ends (m >>= f)
  unfolding ◌>>=◌
  bind-Ends {m} {f} first rest = record {
    ends = λ s. continue-ends (m s) f (first.ends s) (λ a. (rest a).ends (m s).1);
  }

  pub pure-Ends : {A : Type 0} (a : A) → Ends {H = H} {W = W} (pure a)
  unfolding pure
  pure-Ends a = record { ends = λ s. refl }

  pub arg_check-Ends : Ends {H = H} {W = W} esp_arg_check
  unfolding esp_arg_check pure raise
  arg_check-Ends = record { ends = λ s. from s.handle s.world }
    where
      from :
          (h : Option H) (w : W)
          → runs_out (esp_arg_check (record { handle = h; world = w })).0 ≡ false
      from none w = refl
      from (some h) w = refl

  pub modify-Ends : (f : H → H) → Ends {W = W} (modify f)
  unfolding modify pure
  modify-Ends f = record { ends = λ s. from s.handle s.world }
    where
      from :
          (h : Option H) (w : W) → runs_out (modify f (record { handle = h; world = w })).0 ≡ false
      from none w = refl
      from (some h) w = refl

  pub effect-Ends : (f : W → W) → Ends {H = H} (effect f)
  unfolding effect pure
  effect-Ends f = record { ends = λ s. refl }

  pub gets-Ends : {A : Type 0} (f : W → A × W) → Ends {H = H} (gets f)
  unfolding gets pure
  gets-Ends f = record { ends = λ s. refl }

  pub status_with-Ends : {A : Type 0} (f : W → EspErr × A × W) → Ends {H = H} (status_with f)
  unfolding status_with
  status_with-Ends f = record { ends = λ s. settle-ends s _ _ _ }

module _ {H W A : Type 0} where
  pub abort_on_fail-ends :
      (m : Outcome A × Dev H W) → runs_out m.0 ≡ false → runs_out (abort_on_fail m).0 ≡ false
  abort_on_fail-ends (ret a, s) e = refl
  abort_on_fail-ends (fail c, s) e = refl
  abort_on_fail-ends (aborted c, s) e = refl
  abort_on_fail-ends (out_of_fuel, s) e = e

-- The outcomes of a call that may abort the program and never hands back an error code.
abbrev pub ReturnsOrAborts : {A : Type 0} → Outcome A → Type 0
ReturnsOrAborts {A} o = ((a : A) × (o ≡ ret a)) ⊎ ((e : EspErr) × (o ≡ aborted e))

pub returns_or_aborts :
    {A : Type 0} (o : Outcome A) → fails o ≡ false → runs_out o ≡ false → ReturnsOrAborts o
returns_or_aborts (ret a) f r = inl (a, refl)
returns_or_aborts (fail e) f r = cc
returns_or_aborts (aborted e) f r = inr (e, refl)
returns_or_aborts out_of_fuel f r = cc
