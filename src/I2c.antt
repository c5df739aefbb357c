-- ===== src/I2c.antt =====
-- components/esp_driver_i2c_ext, and how the drivers above it run: over a bus that ESP-IDF provides
-- and a handle that may be null.
pub mod Action
pub mod Transfer
pub mod Binary
pub mod Detect
pub mod Scan
pub mod Memory
pub mod Ends
pub mod Time
pub mod Keeps
pub mod Preserves
mod Examples
use esp32_s3_i2c_mqtt_machba.Base.{ℕ, List}
use esp32_s3_i2c_mqtt_machba.Esp.{EspErr}

-- The I2C driver of ESP-IDF, its device handles numbered, and the two other services that the
-- sensor drivers call. The two calls that receive are given the number of bytes;
-- `i2c_master_bus_add_device` the address and the clock.
pub record Bus (W : Type 0) : Type 0 where
  pub i2c_master_transmit : ℕ → List ℕ → W → EspErr × W
  pub i2c_master_transmit_receive : ℕ → List ℕ → ℕ → W → EspErr × List ℕ × W
  pub i2c_master_receive : ℕ → ℕ → W → EspErr × List ℕ × W
  pub i2c_master_probe : ℕ → W → EspErr × W
  pub i2c_master_bus_add_device : ℕ → ℕ → W → EspErr × ℕ × W
  pub i2c_master_bus_rm_device : ℕ → W → EspErr × W
  pub esp_timer_get_time : W → ℕ × W
  pub config_tick_rate_hz : ℕ
