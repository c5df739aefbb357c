-- ===== src/Ahtxx/Memory.antt =====
-- The memory that an initialization leaves allocated.
use esp32_s3_i2c_mqtt_machba.Base.{
  ⊤, ℕ, ◌+◌, ◌*◌, ◌/◌, ◌≡◌, ◌∙◌, Bool, true, false, Bool-cases, inl, inr, List, Option, some,
  if◌then◌else◌, arith,
}
use esp32_s3_i2c_mqtt_machba.Esp.{EspErr, Os, HeapLaws, is_ok}
use esp32_s3_i2c_mqtt_machba.I2c.{Bus}
use esp32_s3_i2c_mqtt_machba.I2c.Action.{
  Outcome, ret, fail, aborted, out_of_fuel, Dev, Action, ◌>>=◌, delay_ms,
}
use esp32_s3_i2c_mqtt_machba.I2c.Transfer.{i2c_master_bus_write_cmd}
use esp32_s3_i2c_mqtt_machba.I2c.Keeps.{
  Keeps, bind-Keeps, pure-Keeps, arg_check-Keeps, modify-Keeps, effect-Keeps, status_with-Keeps,
  status-Keeps,
}
use esp32_s3_i2c_mqtt_machba.Ahtxx.Device.{
  Ahtxx, i2c_ahtxx_setup, i2c_ahtxx_get_status_register, set_up_unless_ready, i2c_ahtxx_reset,
}
use esp32_s3_i2c_mqtt_machba.Ahtxx.Init.{
  Config, new_handle, start_up, init_finish, init_device, init_handle, init_probed, i2c_ahtxx_init,
}

-- The bus driver keeps to memory of its own.
pub record BusHeapLaws {W : Type 0} (os : Os W) (bus : Bus W) (live : W → ℕ) : Type 0 where
  pub transmit_keeps :
      (dev : ℕ) (tx : List ℕ) (w : W) → live (bus.i2c_master_transmit dev tx w).1 ≡ live w
  pub receive_keeps : (dev n : ℕ) (w : W) → live (bus.i2c_master_receive dev n w).2 ≡ live w
  pub probe_keeps : (a : ℕ) (w : W) → live (bus.i2c_master_probe a w).1 ≡ live w
  pub add_keeps : (a hz : ℕ) (w : W) → live (bus.i2c_master_bus_add_device a hz w).2 ≡ live w
  pub rm_keeps : (dev : ℕ) (w : W) → live (bus.i2c_master_bus_rm_device dev w).1 ≡ live w
  pub delay_keeps : (t : ℕ) (w : W) → live (os.v_task_delay t w) ≡ live w

-- What stays allocated: nothing after an error.
abbrev pub blocks_left : Outcome ⊤ → ℕ
blocks_left (fail e) = 0
blocks_left _ = 1

module _ {W : Type 0} (os : Os W) (bus : Bus W) (live : W → ℕ)
    (laws : BusHeapLaws os bus live) where
  and_then :
      {A : Type 0} {m : Action Ahtxx W A} {k : Action Ahtxx W ⊤}
      → Keeps live m
      → Keeps live k
      → Keeps live (m >>= λ _. k)
  and_then first rest = bind-Keeps first (λ _. rest)

  delay-Keeps : (t : ℕ) → Keeps live (delay_ms {H = Ahtxx} os bus t)
  delay-Keeps t = effect-Keeps _ (laws.delay_keeps _)

  status_register-Keeps : Keeps live (i2c_ahtxx_get_status_register os bus)
  unfolding i2c_ahtxx_get_status_register
  status_register-Keeps = bind-Keeps arg_check-Keeps (λ h.
      and_then (status-Keeps _ (laws.transmit_keeps _ _)) (
        and_then (delay-Keeps 10) (
          bind-Keeps (status_with-Keeps _ (laws.receive_keeps _ _))
            (λ rx. and_then (modify-Keeps _) (delay-Keeps 5)))))

  setup-Keeps : Keeps live (i2c_ahtxx_setup os bus)
  unfolding i2c_ahtxx_setup
  setup-Keeps =
      bind-Keeps arg_check-Keeps
        (λ h. and_then (status-Keeps _ (laws.transmit_keeps _ _)) (delay-Keeps 15))

  set_up_unless_ready-Keeps : (ready : Bool) → Keeps live (set_up_unless_ready os bus ready)
  unfolding set_up_unless_ready
  set_up_unless_ready-Keeps true = pure-Keeps _
  set_up_unless_ready-Keeps false = and_then setup-Keeps status_register-Keeps

  write_cmd-Keeps :
      (dev command : ℕ) → Keeps {H = Ahtxx} live (i2c_master_bus_write_cmd bus dev command)
  unfolding i2c_master_bus_write_cmd
  write_cmd-Keeps dev command = status-Keeps _ (laws.transmit_keeps _ _)

  start_up-Keeps : Keeps live (start_up os bus)
  unfolding start_up i2c_ahtxx_reset
  start_up-Keeps = and_then (delay-Keeps 5) (
      bind-Keeps arg_check-Keeps (λ h. and_then (write_cmd-Keeps _ _) (
        and_then (delay-Keeps 25) (
          and_then status_register-Keeps (
            bind-Keeps arg_check-Keeps
              (λ read. and_then (set_up_unless_ready-Keeps _) (delay-Keeps 5)))))))

module _ {W : Type 0} (os : Os W) (bus : Bus W) (live : W → ℕ) (laws : BusHeapLaws os bus live)
    (heap : HeapLaws os live) where
  live-init_finish :
      (n dev : ℕ) (out : Option Ahtxx) (m : Outcome ⊤ × Dev Ahtxx W)
      → live m.1.world ≡ n + 1
      → let r = init_finish os bus dev out m in live r.2 ≡ n + blocks_left r.0
  unfolding init_finish
  live-init_finish n dev out (ret t, s) e = laws.delay_keeps _ s.world ∙ e
  live-init_finish n dev out (fail c, s) e =
      omega (
        arith,
        heap.free_one (bus.i2c_master_bus_rm_device dev s.world).1,
        laws.rm_keeps dev s.world,
      )
  live-init_finish n dev out (aborted c, s) e = e
  live-init_finish n dev out (out_of_fuel, s) e = e

  live-init_device :
      (n : ℕ) (out : Option Ahtxx) (added : EspErr × ℕ × W)
      → live added.2 ≡ n + 1
      → let r = init_device os bus out added in live r.2 ≡ n + blocks_left r.0
  unfolding init_device
  live-init_device n out (e, dev, w) h = elim (Bool-cases (is_ok e)) [
    | inl ok ↦
        let s : Dev Ahtxx W = record { handle = some (new_handle dev); world = w } in
        rw ok (
          live-init_finish n dev out (start_up os bus s)
            ((start_up-Keeps os bus live laws).keeps s ∙ h))
    | inr failed ↦ rw failed (omega (arith, heap.free_one w))
  ]

  live-init_handle :
      (n : ℕ) (c : Config) (out : Option Ahtxx) (got : Bool × W)
      → live got.1 ≡ (if got.0 then n + 1 else n)
      → let r = init_handle os bus c out got in live r.2 ≡ n + blocks_left r.0
  unfolding init_handle
  live-init_handle n c out (false, w) h = omega arith
  live-init_handle n c out (true, w) h =
      live-init_device n out (bus.i2c_master_bus_add_device c.device_address c.scl_speed_hz w)
        (laws.add_keeps c.device_address c.scl_speed_hz w ∙ h)

  -- An initialization that returns an error leaves no memory allocated, and any other one leaves
  -- one block, the handle.
  pub live-i2c_ahtxx_init :
      (c : Config) (out : Option Ahtxx) (w : W)
      → let r = i2c_ahtxx_init os bus true (some c) out w in live r.2 ≡ live w + blocks_left r.0
  unfolding i2c_ahtxx_init init_probed
  live-i2c_ahtxx_init c out w =
      let w1 = os.v_task_delay (120 * bus.config_tick_rate_hz / 1000) w in
      let probed = bus.i2c_master_probe c.device_address w1 in
      let same : live probed.1 ≡ live w =
        laws.probe_keeps c.device_address w1 ∙ laws.delay_keeps _ w in
      elim (Bool-cases (is_ok probed.0)) [
        | inl found ↦
            let got : live (os.calloc probed.1).1
                ≡ (if (os.calloc probed.1).0 then live w + 1 else live w) =
              ground (arith, heap.calloc_some probed.1, heap.calloc_none probed.1) in
            rw found (live-init_handle (live w) c out (os.calloc probed.1) got)
        | inr lost ↦ rw lost (omega arith)
      ]
