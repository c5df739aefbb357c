-- ===== src/Bmp280/Leak.antt =====
-- The memory that an initialization leaves allocated.
use esp32_s3_i2c_mqtt_machba.Base.{
  ⊤, ℕ, ◌+◌, ◌*◌, ◌/◌, ◌≡◌, ◌∙◌, true, List, Option, some, arith, Bool-cases, inl, inr,
}
use esp32_s3_i2c_mqtt_machba.Esp.{EspErr, Os, HeapLaws, is_ok, esp_ok}
use esp32_s3_i2c_mqtt_machba.I2c.{Bus}
use esp32_s3_i2c_mqtt_machba.I2c.Action.{
  Outcome, ret, fail, aborted, out_of_fuel, Dev, Action, ◌>>=◌, modify, esp_error_check,
}
use esp32_s3_i2c_mqtt_machba.I2c.Transfer.{
  i2c_master_bus_read_uint8, i2c_master_bus_read_uint16, i2c_master_bus_write_uint8,
}
use esp32_s3_i2c_mqtt_machba.I2c.Keeps.{
  Keeps, bind-Keeps, pure-Keeps, check-Keeps, arg_check-Keeps, modify-Keeps, effect-Keeps,
  status_with-Keeps, status-Keeps, error_check-Keeps,
}
use esp32_s3_i2c_mqtt_machba.Bmp280.Device.{
  Bmp280, i2c_bmp280_get_chip_id_register, i2c_bmp280_get_control_measurement_register,
  i2c_bmp280_get_configuration_register, i2c_bmp280_set_control_measurement_register,
  i2c_bmp280_set_configuration_register,
}
use esp32_s3_i2c_mqtt_machba.Bmp280.Init.{
  Config, new_handle, i2c_bmp280_get_cal_factors, i2c_bmp280_get_registers, i2c_bmp280_reset,
  set_up, init_finish, init_device, init_factors, init_handle, init_probed, i2c_bmp280_init,
}

-- The bus driver keeps to memory of its own.
pub record BusHeapLaws {W : Type 0} (os : Os W) (bus : Bus W) (live : W → ℕ) : Type 0 where
  pub transmit_keeps :
      (dev : ℕ) (tx : List ℕ) (w : W) → live (bus.i2c_master_transmit dev tx w).1 ≡ live w
  pub receive_keeps :
      (dev : ℕ) (tx : List ℕ) (n : ℕ) (w : W)
      → live (bus.i2c_master_transmit_receive dev tx n w).2 ≡ live w
  pub probe_keeps : (a : ℕ) (w : W) → live (bus.i2c_master_probe a w).1 ≡ live w
  pub add_keeps : (a hz : ℕ) (w : W) → live (bus.i2c_master_bus_add_device a hz w).2 ≡ live w
  pub rm_keeps : (dev : ℕ) (w : W) → live (bus.i2c_master_bus_rm_device dev w).1 ≡ live w
  pub delay_keeps : (t : ℕ) (w : W) → live (os.v_task_delay t w) ≡ live w

module _ {W : Type 0} (os : Os W) (bus : Bus W) (live : W → ℕ)
    (laws : BusHeapLaws os bus live) where
  read_uint8-Keeps :
      (dev reg_addr : ℕ) → Keeps {H = Bmp280} live (i2c_master_bus_read_uint8 bus dev reg_addr)
  unfolding i2c_master_bus_read_uint8
  read_uint8-Keeps dev reg_addr =
      bind-Keeps (status_with-Keeps _ (laws.receive_keeps dev _ _)) (λ rx. pure-Keeps _)

  read_uint16-Keeps :
      (dev reg_addr : ℕ) → Keeps {H = Bmp280} live (i2c_master_bus_read_uint16 bus dev reg_addr)
  unfolding i2c_master_bus_read_uint16
  read_uint16-Keeps dev reg_addr =
      bind-Keeps (status_with-Keeps _ (laws.receive_keeps dev _ _)) (λ rx. pure-Keeps _)

  write_uint8-Keeps :
      (dev reg_addr v : ℕ) → Keeps {H = Bmp280} live (i2c_master_bus_write_uint8 bus dev reg_addr v)
  unfolding i2c_master_bus_write_uint8
  write_uint8-Keeps dev reg_addr v = status-Keeps _ (laws.transmit_keeps dev _)

  chip_id-Keeps : Keeps live (i2c_bmp280_get_chip_id_register os bus)
  unfolding i2c_bmp280_get_chip_id_register
  chip_id-Keeps = bind-Keeps arg_check-Keeps (λ h.
      bind-Keeps (read_uint8-Keeps _ _)
        (λ v. bind-Keeps (modify-Keeps _) (λ _. effect-Keeps _ (laws.delay_keeps _))))

  get_control-Keeps : Keeps live (i2c_bmp280_get_control_measurement_register os bus)
  unfolding i2c_bmp280_get_control_measurement_register
  get_control-Keeps = bind-Keeps arg_check-Keeps (λ h.
      bind-Keeps (read_uint8-Keeps _ _)
        (λ v. bind-Keeps (modify-Keeps _) (λ _. effect-Keeps _ (laws.delay_keeps _))))

  get_config-Keeps : Keeps live (i2c_bmp280_get_configuration_register os bus)
  unfolding i2c_bmp280_get_configuration_register
  get_config-Keeps = bind-Keeps arg_check-Keeps (λ h.
      bind-Keeps (read_uint8-Keeps _ _)
        (λ v. bind-Keeps (modify-Keeps _) (λ _. effect-Keeps _ (laws.delay_keeps _))))

  set_control-Keeps : (v : ℕ) → Keeps live (i2c_bmp280_set_control_measurement_register os bus v)
  unfolding i2c_bmp280_set_control_measurement_register
  set_control-Keeps v = bind-Keeps arg_check-Keeps (λ h.
      bind-Keeps (write_uint8-Keeps _ _ _)
        (λ _. bind-Keeps (effect-Keeps _ (laws.delay_keeps _)) (λ _. get_control-Keeps)))

  set_config-Keeps : (v : ℕ) → Keeps live (i2c_bmp280_set_configuration_register os bus v)
  unfolding i2c_bmp280_set_configuration_register
  set_config-Keeps v = bind-Keeps arg_check-Keeps (λ h.
      bind-Keeps (write_uint8-Keeps _ _ _)
        (λ _. bind-Keeps (effect-Keeps _ (laws.delay_keeps _)) (λ _. get_config-Keeps)))

  and_then :
      {A : Type 0} {m : Action Bmp280 W A} {k : Action Bmp280 W ⊤}
      → Keeps live m
      → Keeps live k
      → Keeps live (m >>= λ _. k)
  and_then first rest = bind-Keeps first (λ _. rest)

  factor-Keeps :
      (dev reg_addr : ℕ) (store : ℕ → Bmp280 → Bmp280)
      → Keeps live
          (esp_error_check (i2c_master_bus_read_uint16 bus dev reg_addr) >>= λ v. modify (store v))
  factor-Keeps dev reg_addr store =
      bind-Keeps (error_check-Keeps (read_uint16-Keeps dev reg_addr)) (λ v. modify-Keeps _)

  cal_factors-Keeps : Keeps live (i2c_bmp280_get_cal_factors os bus)
  unfolding i2c_bmp280_get_cal_factors
  cal_factors-Keeps = bind-Keeps arg_check-Keeps (λ h. and_then (factor-Keeps _ _ _) (
      and_then (factor-Keeps _ _ _) (
        and_then (factor-Keeps _ _ _) (
          and_then (factor-Keeps _ _ _) (
            and_then (factor-Keeps _ _ _) (
              and_then (factor-Keeps _ _ _) (
                and_then (factor-Keeps _ _ _) (
                  and_then (factor-Keeps _ _ _) (
                    and_then (factor-Keeps _ _ _) (
                      and_then (factor-Keeps _ _ _) (
                        and_then (factor-Keeps _ _ _) (
                          and_then (factor-Keeps _ _ _)
                            (effect-Keeps _ (laws.delay_keeps _))))))))))))))

  reset-Keeps : Keeps live (i2c_bmp280_reset os bus)
  unfolding i2c_bmp280_reset i2c_bmp280_get_registers
  reset-Keeps = bind-Keeps arg_check-Keeps (λ h. and_then (write_uint8-Keeps _ _ _) (
      and_then (effect-Keeps _ (laws.delay_keeps _)) (
        and_then arg_check-Keeps
          (and_then cal_factors-Keeps (and_then get_control-Keeps get_config-Keeps)))))

  set_up-Keeps : (c : Config) → Keeps live (set_up os bus c)
  unfolding set_up
  set_up-Keeps c = and_then (effect-Keeps _ (laws.delay_keeps _)) (
      and_then chip_id-Keeps (
        bind-Keeps arg_check-Keeps (λ typed. and_then (check-Keeps _ _ _) (
          and_then reset-Keeps (
            bind-Keeps arg_check-Keeps
              (λ h. and_then (set_config-Keeps _) (set_control-Keeps _)))))))

-- What stays allocated at the end of an initialization that got both blocks of memory.
abbrev pub blocks_left : Outcome ⊤ → ℕ
blocks_left (fail e) = 1
blocks_left _ = 2

module _ {W : Type 0} (os : Os W) (bus : Bus W) (live : W → ℕ) (laws : BusHeapLaws os bus live)
    (heap : HeapLaws os live) where
  live-init_finish :
      (n dev : ℕ) (out : Option Bmp280) (m : Outcome ⊤ × Dev Bmp280 W)
      → live m.1.world ≡ n + 2
      → let r = init_finish os bus dev out m in live r.2 ≡ n + blocks_left r.0
  unfolding init_finish
  live-init_finish n dev out (ret t, s) e = laws.delay_keeps _ s.world ∙ e
  live-init_finish n dev out (fail c, s) e =
      omega (
        arith,
        heap.free_one (bus.i2c_master_bus_rm_device dev s.world).1,
        laws.rm_keeps dev s.world,
      )
  live-init_finish n dev out (aborted c, s) e = e
  live-init_finish n dev out (out_of_fuel, s) e = e

  live-init_device :
      (n : ℕ) (c : Config) (out : Option Bmp280) (added : EspErr × ℕ × W)
      → live added.2 ≡ n + 2
      → let r = init_device os bus c out added in live r.2 ≡ n + blocks_left r.0
  unfolding init_device
  live-init_device n c out (e, dev, w) h = elim (Bool-cases (is_ok e)) [
    | inl ok ↦
        let s : Dev Bmp280 W = record { handle = some (new_handle dev); world = w } in
        rw ok (
          live-init_finish n dev out (set_up os bus c s)
            ((set_up-Keeps os bus live laws c).keeps s ∙ h))
    | inr failed ↦ rw failed (omega (arith, heap.free_one w))
  ]

  -- When the sensor answers at its address and both blocks of memory are given, an initialization
  -- that fails leaves one of the two allocated, and any other one leaves both.
  pub live-i2c_bmp280_init :
      (c : Config) (out : Option Bmp280) (w : W)
      → let w1 = os.v_task_delay (25 * bus.config_tick_rate_hz / 1000) w in
        let probed = bus.i2c_master_probe c.device_address w1 in
        probed.0 ≡ esp_ok
        → (os.calloc probed.1).0 ≡ true
        → (os.calloc (os.calloc probed.1).1).0 ≡ true
        → let r = i2c_bmp280_init os bus true (some c) out w in live r.2 ≡ live w + blocks_left r.0
  unfolding i2c_bmp280_init init_probed init_handle init_factors
  live-i2c_bmp280_init c out w found got_handle got_factors =
      let w1 = os.v_task_delay (25 * bus.config_tick_rate_hz / 1000) w in
      let w2 = (bus.i2c_master_probe c.device_address w1).1 in
      let w3 = (os.calloc w2).1 in
      let w4 = (os.calloc w3).1 in
      rw (found, got_handle, got_factors)
        (live-init_device (live w) c out
          (bus.i2c_master_bus_add_device c.device_address c.scl_speed_hz w4)
          (omega (
            arith,
            laws.add_keeps c.device_address c.scl_speed_hz w4,
            heap.calloc_some w3 got_factors,
            heap.calloc_some w2 got_handle,
            laws.probe_keeps c.device_address w1,
            laws.delay_keeps (25 * bus.config_tick_rate_hz / 1000) w,
          )))
