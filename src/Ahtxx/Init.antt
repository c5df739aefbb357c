-- ===== src/Ahtxx/Init.antt =====
-- ahtxx.c: the initialization.
use esp32_s3_i2c_mqtt_machba.Base.{
  ⊤, ℕ, ◌*◌, ◌/◌, Bool, true, false, Option, none, some, if◌then◌else◌,
}
use esp32_s3_i2c_mqtt_machba.Esp.{EspErr, Os, is_ok, esp_err_no_mem, esp_err_invalid_arg}
use esp32_s3_i2c_mqtt_machba.I2c.{Bus}
use esp32_s3_i2c_mqtt_machba.I2c.Action.{
  Outcome, ret, fail, aborted, out_of_fuel, Dev, ◌>>◌, delay_ms,
}
use esp32_s3_i2c_mqtt_machba.Ahtxx.Device.{Aht, Ahtxx, AhtType, aht10, i2c_ahtxx_reset}

-- `i2c_ahtxx_config_t`
pub record Config : Type 0 where
  pub device_address : ℕ
  pub scl_speed_hz : ℕ
  pub config_aht_type : AhtType

-- The handle after `calloc` and `i2c_master_bus_add_device`: the type of the configuration is not
-- copied, and the cleared one is that of an AHT10.
abbrev pub new_handle : ℕ → Ahtxx
new_handle dev = record { i2c_dev_handle = dev; aht_type = aht10; status_reg = 0 }

module _ {W : Type 0} (os : Os W) (bus : Bus W) where
  -- What an initialization returns, and what it leaves of the handle variable and of the world.
  abbrev Result : Type 0
  Result = Outcome ⊤ × Option Ahtxx × W

  -- The end of an initialization: the handle is stored; or the device is removed from the bus and
  -- the handle freed.
  unfoldable pub init_finish : ℕ → Option Ahtxx → Outcome ⊤ × Dev Ahtxx W → Result
  init_finish dev out (ret t, s) =
      (ret t, s.handle, os.v_task_delay (10 * bus.config_tick_rate_hz / 1000) s.world)
  init_finish dev out (fail e, s) =
      (fail e, out, os.free (bus.i2c_master_bus_rm_device dev s.world).1)
  init_finish dev out (aborted e, s) = (aborted e, out, s.world)
  init_finish dev out (out_of_fuel, s) = (out_of_fuel, out, s.world)

  -- The delay and the reset of the new device.
  unfoldable pub start_up : Aht os bus ⊤
  start_up = delay_ms os bus 5 >> i2c_ahtxx_reset os bus

  -- The device on the bus; without one the handle is freed.
  unfoldable pub init_device : Option Ahtxx → EspErr × ℕ × W → Result
  init_device out (e, dev, w) =
      if is_ok e
      then init_finish dev out (start_up (record { handle = some (new_handle dev); world = w }))
      else (fail e, out, os.free w)

  -- The memory of the handle.
  unfoldable pub init_handle : Config → Option Ahtxx → Bool × W → Result
  init_handle c out (true, w) =
      init_device out (bus.i2c_master_bus_add_device c.device_address c.scl_speed_hz w)
  init_handle c out (false, w) = (fail esp_err_no_mem, out, w)

  -- The device answers at its address.
  unfoldable pub init_probed : Config → Option Ahtxx → EspErr × W → Result
  init_probed c out (e, w) = if is_ok e then init_handle c out (os.calloc w) else (fail e, out, w)

  -- `i2c_ahtxx_init`, given whether the bus handle is not null, the configuration or none, and what
  -- the handle variable holds.
  unfoldable pub i2c_ahtxx_init : Bool → Option Config → Option Ahtxx → W → Result
  i2c_ahtxx_init true (some c) out w = init_probed c out (
      bus.i2c_master_probe c.device_address
        (os.v_task_delay (120 * bus.config_tick_rate_hz / 1000) w))
  i2c_ahtxx_init true none out w = (fail esp_err_invalid_arg, out, w)
  i2c_ahtxx_init false config out w = (fail esp_err_invalid_arg, out, w)
