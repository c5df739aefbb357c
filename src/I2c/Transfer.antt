-- ===== src/I2c/Transfer.antt =====
-- i2c_master_ext.c: reads and writes of registers. A device handle of the bus is a number that is
-- never null here, since `i2c_master_bus_add_device` has set it.
use esp32_s3_i2c_mqtt_machba.Base.{⊤, ℕ, ◌+◌, ◌*◌, ◌/◌, ◌%◌, ◌^◌, List, [], ◌∷◌, get_or}
use esp32_s3_i2c_mqtt_machba.I2c.{Bus}
use esp32_s3_i2c_mqtt_machba.I2c.Action.{Action, pure, ◌>>=◌, status, status_with}

-- `rx[i]`: the receive buffer starts as zeros.
abbrev byte_at : List ℕ → ℕ → ℕ
byte_at rx i = get_or rx i 0

-- The bytes of `i2c_bytes_to_uint16_t`, low byte first.
abbrev pub uint16_bytes : ℕ → List ℕ
uint16_bytes n = n % 2 ^ 8 ∷ n / 2 ^ 8 % 2 ^ 8 ∷ []

module _ {H W : Type 0} (bus : Bus W) (dev : ℕ) where
  abbrev receive : List ℕ → ℕ → Action H W (List ℕ)
  receive tx n = status_with (bus.i2c_master_transmit_receive dev tx n)

  -- `i2c_master_bus_read_uint8`
  unfoldable pub i2c_master_bus_read_uint8 : ℕ → Action H W ℕ
  i2c_master_bus_read_uint8 reg_addr = do rx ← receive (reg_addr ∷ []) 1; pure (byte_at rx 0)

  -- `i2c_master_bus_read_uint16`
  unfoldable pub i2c_master_bus_read_uint16 : ℕ → Action H W ℕ
  i2c_master_bus_read_uint16 reg_addr = do
    rx ← receive (reg_addr ∷ []) 2
    pure (byte_at rx 0 + byte_at rx 1 * 2 ^ 8)

  -- `i2c_master_bus_read_uint32`
  unfoldable pub i2c_master_bus_read_uint32 : ℕ → Action H W ℕ
  i2c_master_bus_read_uint32 reg_addr = do
    rx ← receive (reg_addr ∷ []) 4
    pure (byte_at rx 0 + byte_at rx 1 * 2 ^ 8 + byte_at rx 2 * 2 ^ 16 + byte_at rx 3 * 2 ^ 24)

  -- `i2c_master_bus_read_byte16`, `_byte24`, `_byte32`, `_byte48` and `_byte64`
  unfoldable pub i2c_master_bus_read_byte16 : ℕ → Action H W (List ℕ)
  i2c_master_bus_read_byte16 reg_addr = receive (reg_addr ∷ []) 2

  unfoldable pub i2c_master_bus_read_byte24 : ℕ → Action H W (List ℕ)
  i2c_master_bus_read_byte24 reg_addr = receive (reg_addr ∷ []) 3

  unfoldable pub i2c_master_bus_read_byte32 : ℕ → Action H W (List ℕ)
  i2c_master_bus_read_byte32 reg_addr = receive (reg_addr ∷ []) 4

  unfoldable pub i2c_master_bus_read_byte48 : ℕ → Action H W (List ℕ)
  i2c_master_bus_read_byte48 reg_addr = receive (reg_addr ∷ []) 6

  unfoldable pub i2c_master_bus_read_byte64 : ℕ → Action H W (List ℕ)
  i2c_master_bus_read_byte64 reg_addr = receive (reg_addr ∷ []) 8

  -- `i2c_master_bus_read16_byte24`, `_byte48` and `_byte64`
  unfoldable pub i2c_master_bus_read16_byte24 : ℕ → Action H W (List ℕ)
  i2c_master_bus_read16_byte24 reg_addr = receive (uint16_bytes reg_addr) 3

  unfoldable pub i2c_master_bus_read16_byte48 : ℕ → Action H W (List ℕ)
  i2c_master_bus_read16_byte48 reg_addr = receive (uint16_bytes reg_addr) 6

  unfoldable pub i2c_master_bus_read16_byte64 : ℕ → Action H W (List ℕ)
  i2c_master_bus_read16_byte64 reg_addr = receive (uint16_bytes reg_addr) 8

  -- `i2c_master_bus_write_cmd`
  unfoldable pub i2c_master_bus_write_cmd : ℕ → Action H W ⊤
  i2c_master_bus_write_cmd command = status (bus.i2c_master_transmit dev (command ∷ []))

  -- `i2c_master_bus_write16_cmd`
  unfoldable pub i2c_master_bus_write16_cmd : ℕ → Action H W ⊤
  i2c_master_bus_write16_cmd command = status (bus.i2c_master_transmit dev (uint16_bytes command))

  -- `i2c_master_bus_write_uint8`
  unfoldable pub i2c_master_bus_write_uint8 : ℕ → ℕ → Action H W ⊤
  i2c_master_bus_write_uint8 reg_addr value =
      status (bus.i2c_master_transmit dev (reg_addr ∷ value ∷ []))

  -- `i2c_master_bus_write_uint16`
  unfoldable pub i2c_master_bus_write_uint16 : ℕ → ℕ → Action H W ⊤
  i2c_master_bus_write_uint16 reg_addr value =
      status (bus.i2c_master_transmit dev (reg_addr ∷ value % 2 ^ 8 ∷ value / 2 ^ 8 ∷ []))
