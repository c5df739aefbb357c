-- ===== src/I2c/Detect.antt =====
-- i2c_master_ext.c: the scan of the bus.
use esp32_s3_i2c_mqtt_machba.Base.{ℕ, zero, suc, ◌+◌, List, [], ◌∷◌}
use esp32_s3_i2c_mqtt_machba.Esp.{EspErr, esp_ok, esp_err_timeout}
use esp32_s3_i2c_mqtt_machba.I2c.{Bus}

-- What is printed for an address.
pub data Cell : Type 0 where
  found : ℕ → Cell
  busy nothing : Cell

abbrev pub cell : ℕ → EspErr → Cell
cell address esp_ok = found address
cell address esp_err_timeout = busy
cell address _ = nothing

module _ {W : Type 0} (bus : Bus W) where
  -- A row of the table, on the columns that are left.
  unfoldable pub detect_row : ℕ → ℕ → ℕ → W → List Cell × W
  detect_row zero i j w = ([], w)
  detect_row (suc n) i j w =
      let (status, w1) = bus.i2c_master_probe (i + j) w in
      let (rest, w2) = detect_row n i (suc j) w1 in (cell (i + j) status ∷ rest, w2)

  -- The rows, on the rows that are left.
  unfoldable pub detect_rows : ℕ → ℕ → W → List (List Cell) × W
  unfolding detect_row
  detect_rows zero i w = ([], w)
  detect_rows (suc n) i w =
      let (row, w1) = detect_row 16 i 0 w in
      let (rest, w2) = detect_rows n (i + 16) w1 in (row ∷ rest, w2)

  -- `i2c_master_bus_detect_devices`: the table, and the status that it returns.
  unfoldable pub i2c_master_bus_detect_devices : W → EspErr × List (List Cell) × W
  unfolding detect_rows
  i2c_master_bus_detect_devices w = let (table, w1) = detect_rows 8 0 w in (esp_ok, table, w1)
