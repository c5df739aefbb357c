-- ===== src/Ahtxx/Kind.antt =====
-- The type of sensor that an initialization leaves in the handle.
use esp32_s3_i2c_mqtt_machba.Base.{
  ⊤, ℕ, ◌*◌, ◌/◌, ◌≡◌, refl, Bool, true, false, Bool-cases, inl, inr, Option, none, some,
}
use esp32_s3_i2c_mqtt_machba.Esp.{EspErr, Os, is_ok}
use esp32_s3_i2c_mqtt_machba.I2c.{Bus}
use esp32_s3_i2c_mqtt_machba.I2c.Action.{
  Outcome, ret, fail, aborted, out_of_fuel, Dev, Action, ◌>>=◌, delay_ms,
}
use esp32_s3_i2c_mqtt_machba.I2c.Transfer.{i2c_master_bus_write_cmd}
use esp32_s3_i2c_mqtt_machba.I2c.Preserves.{
  Preserves, bind-Preserves, pure-Preserves, arg_check-Preserves, modify-Preserves,
  effect-Preserves, status_with-Preserves, status-Preserves,
}
use esp32_s3_i2c_mqtt_machba.Ahtxx.Device.{
  Ahtxx, aht10, i2c_ahtxx_setup, i2c_ahtxx_get_status_register, set_up_unless_ready,
  i2c_ahtxx_reset,
}
use esp32_s3_i2c_mqtt_machba.Ahtxx.Init.{
  Config, new_handle, start_up, init_finish, init_device, init_handle, init_probed, i2c_ahtxx_init,
}

-- A handle of an AHT10.
abbrev pub OfAht10 : Option Ahtxx → Type 0
OfAht10 (some h) = h.aht_type ≡ aht10
OfAht10 none = ⊥

-- What an initialization with this outcome has left in the caller's handle variable, which held
-- `out`.
abbrev pub Stored : Option Ahtxx → Outcome ⊤ → Option Ahtxx → Type 0
Stored out (ret t) out' = OfAht10 out'
Stored out (fail e) out' = out' ≡ out
Stored out (aborted e) out' = out' ≡ out
Stored out out_of_fuel out' = out' ≡ out

module _ {W : Type 0} (os : Os W) (bus : Bus W) where
  and_then :
      {A : Type 0} {m : Action Ahtxx W A} {k : Action Ahtxx W ⊤}
      → Preserves OfAht10 m
      → Preserves OfAht10 k
      → Preserves OfAht10 (m >>= λ _. k)
  and_then first rest = bind-Preserves first (λ _. rest)

  delay-Preserves : (t : ℕ) → Preserves OfAht10 (delay_ms os bus t)
  delay-Preserves t = effect-Preserves _

  status_register-Preserves : Preserves OfAht10 (i2c_ahtxx_get_status_register os bus)
  unfolding i2c_ahtxx_get_status_register
  status_register-Preserves = bind-Preserves arg_check-Preserves (λ h.
      and_then (status-Preserves _) (
        and_then (delay-Preserves 10) (
          bind-Preserves (status_with-Preserves _)
            (λ rx. and_then (modify-Preserves _ (λ h' e. e)) (delay-Preserves 5)))))

  setup-Preserves : Preserves OfAht10 (i2c_ahtxx_setup os bus)
  unfolding i2c_ahtxx_setup
  setup-Preserves =
      bind-Preserves arg_check-Preserves (λ h. and_then (status-Preserves _) (delay-Preserves 15))

  set_up_unless_ready-Preserves :
      (ready : Bool) → Preserves OfAht10 (set_up_unless_ready os bus ready)
  unfolding set_up_unless_ready
  set_up_unless_ready-Preserves true = pure-Preserves _
  set_up_unless_ready-Preserves false = and_then setup-Preserves status_register-Preserves

  write_cmd-Preserves :
      (dev command : ℕ) → Preserves OfAht10 (i2c_master_bus_write_cmd bus dev command)
  unfolding i2c_master_bus_write_cmd
  write_cmd-Preserves dev command = status-Preserves _

  start_up-Preserves : Preserves OfAht10 (start_up os bus)
  unfolding start_up i2c_ahtxx_reset
  start_up-Preserves = and_then (delay-Preserves 5) (
      bind-Preserves arg_check-Preserves (λ h. and_then (write_cmd-Preserves _ _) (
        and_then (delay-Preserves 25) (
          and_then status_register-Preserves (
            bind-Preserves arg_check-Preserves
              (λ read. and_then (set_up_unless_ready-Preserves _) (delay-Preserves 5)))))))

  module _ (c : Config) (out : Option Ahtxx) where
    init_finish-Stored :
        (dev : ℕ) (m : Outcome ⊤ × Dev Ahtxx W)
        → OfAht10 m.1.handle
        → let r = init_finish os bus dev out m in Stored out r.0 r.1
    unfolding init_finish
    init_finish-Stored dev (ret t, s) p = p
    init_finish-Stored dev (fail e, s) p = refl
    init_finish-Stored dev (aborted e, s) p = refl
    init_finish-Stored dev (out_of_fuel, s) p = refl

    init_device-Stored :
        (added : EspErr × ℕ × W) → let r = init_device os bus out added in Stored out r.0 r.1
    unfolding init_device
    init_device-Stored (e, dev, w) = elim (Bool-cases (is_ok e)) [
      | inl ok ↦
          let s : Dev Ahtxx W = record { handle = some (new_handle dev); world = w } in
          rw ok (init_finish-Stored dev (start_up os bus s) (start_up-Preserves.preserves s refl))
      | inr failed ↦ rw failed refl
    ]

    init_handle-Stored :
        (got : Bool × W) → let r = init_handle os bus c out got in Stored out r.0 r.1
    unfolding init_handle
    init_handle-Stored (true, w) =
        init_device-Stored (bus.i2c_master_bus_add_device c.device_address c.scl_speed_hz w)
    init_handle-Stored (false, w) = refl

    -- An initialization that succeeds stores a handle of an AHT10, whatever type of sensor the
    -- configuration names; one that does not leaves the caller's handle variable as it was.
    pub i2c_ahtxx_init-Stored :
        (w : W) → let r = i2c_ahtxx_init os bus true (some c) out w in Stored out r.0 r.1
    unfolding i2c_ahtxx_init init_probed
    i2c_ahtxx_init-Stored w =
        let w1 = os.v_task_delay (120 * bus.config_tick_rate_hz / 1000) w in
        let probed = bus.i2c_master_probe c.device_address w1 in
        elim (Bool-cases (is_ok probed.0)) [
          | inl found ↦ rw found (init_handle-Stored (os.calloc probed.1))
          | inr lost ↦ rw lost refl
        ]
