-- ===== src/I2c/Action.antt =====
-- The calls of a driver: they act on a handle, which is `none` where the source has a null pointer,
-- and on the world, and end with a value, with an error code or in an abort of the program.
use esp32_s3_i2c_mqtt_machba.Base.{⊤, ℕ, ◌*◌, ◌/◌, Option, none, some}
use esp32_s3_i2c_mqtt_machba.Esp.{EspErr, esp_ok, esp_err_invalid_arg, Os}
use esp32_s3_i2c_mqtt_machba.I2c.{Bus}

-- `fail` is a return of an error code; `aborted` is what `ESP_ERROR_CHECK` does on one; `out_of_fuel`
-- is a loop that is still running when the model's fuel is used up.
pub data Outcome (A : Type 0) : Type 0 where
  ret : A → Outcome A
  fail : EspErr → Outcome A
  aborted : EspErr → Outcome A
  out_of_fuel : Outcome A

pub record Dev (H W : Type 0) : Type 0 where
  pub handle : Option H
  pub world : W

abbrev pub Action : Type 0 → Type 0 → Type 0 → Type 0
Action H W A = Dev H W → Outcome A × Dev H W

module _ {H W A : Type 0} where
  unfoldable pub pure : A → Action H W A
  pure a s = (ret a, s)

  unfoldable pub raise : EspErr → Action H W A
  raise e s = (fail e, s)

-- The rest of a `do` block, on the outcome of its first line.
abbrev pub continue :
    {H W A B : Type 0} → Outcome A × Dev H W → (A → Action H W B) → Outcome B × Dev H W
continue (ret a, s) f = f a s
continue (fail e, s) f = (fail e, s)
continue (aborted e, s) f = (aborted e, s)
continue (out_of_fuel, s) f = (out_of_fuel, s)

infixl 5 ◌>>=◌ ◌>>◌
unfoldable pub ◌>>=◌ : {H W A B : Type 0} → Action H W A → (A → Action H W B) → Action H W B
◌>>=◌ m f s = continue (m s) f

abbrev pub ◌>>◌ : {H W A B : Type 0} → Action H W A → Action H W B → Action H W B
m >> k = m >>= λ _. k

module _ {H W : Type 0} where
  -- `ESP_ARG_CHECK( handle )`, with the handle.
  unfoldable pub esp_arg_check : Action H W H
  unfolding pure raise
  esp_arg_check s = elim s.handle [ none ↦ raise esp_err_invalid_arg s | some h ↦ pure h s ]

  unfoldable pub modify : (H → H) → Action H W ⊤
  unfolding pure
  modify f s = elim s.handle [
    | none ↦ pure tt s
    | some h ↦ pure tt (record s { handle = some (f h) })
  ]

  -- `ESP_ERROR_CHECK`
  abbrev pub abort_on_fail : {A : Type 0} → Outcome A × Dev H W → Outcome A × Dev H W
  abort_on_fail (ret a, s) = (ret a, s)
  abort_on_fail (fail e, s) = (aborted e, s)
  abort_on_fail (aborted e, s) = (aborted e, s)
  abort_on_fail (out_of_fuel, s) = (out_of_fuel, s)

  unfoldable pub esp_error_check : {A : Type 0} → Action H W A → Action H W A
  esp_error_check m s = abort_on_fail (m s)

  -- What a service that returns a status leaves: on ESP_OK a value.
  abbrev pub settle : {A : Type 0} → Dev H W → EspErr → A → W → Outcome A × Dev H W
  settle s esp_ok a w = (ret a, record s { world = w })
  settle s e a w = (fail e, record s { world = w })

  unfoldable pub status : (W → EspErr × W) → Action H W ⊤
  status f s = settle s (f s.world).0 tt (f s.world).1

  unfoldable pub status_with : {A : Type 0} → (W → EspErr × A × W) → Action H W A
  status_with f s = settle s (f s.world).0 (f s.world).1 (f s.world).2

  unfoldable pub effect : (W → W) → Action H W ⊤
  unfolding pure
  effect f s = pure tt (record s { world = f s.world })

  unfoldable pub gets : {A : Type 0} → (W → A × W) → Action H W A
  unfolding pure
  gets f s = let (a, w) = f s.world in pure a (record s { world = w })

-- `vTaskDelay(pdMS_TO_TICKS(ms))`
abbrev pub delay_ms : {H W : Type 0} → Os W → Bus W → ℕ → Action H W ⊤
delay_ms os bus ms = effect (os.v_task_delay (ms * bus.config_tick_rate_hz / 1000))
