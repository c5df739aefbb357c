-- ===== src/I2c/Examples.antt =====
-- Concrete buses, and the theorems on them.
use esp32_s3_i2c_mqtt_machba.Base.{
  ⊤, none, List, ◌∷◌, ◌+◌, ◌/◌, ◌%◌, ◌^◌, ℕ, suc, ◌≡◌, ◌==◌, if◌then◌else◌, refl, [], length,
  concat,
}
use esp32_s3_i2c_mqtt_machba.Esp.{EspErr, esp_ok, esp_err_timeout, idf}
use esp32_s3_i2c_mqtt_machba.I2c.{Bus}
use esp32_s3_i2c_mqtt_machba.I2c.Action.{Dev, ret, ◌>>◌}
use esp32_s3_i2c_mqtt_machba.I2c.Transfer.{
  i2c_master_bus_read_uint16, i2c_master_bus_read_uint32, i2c_master_bus_write_uint16,
}
use esp32_s3_i2c_mqtt_machba.I2c.Memory.{stored, loaded, MemoryLaws, write_uint16-read_uint32}
use esp32_s3_i2c_mqtt_machba.I2c.Detect.{i2c_master_bus_detect_devices}
use esp32_s3_i2c_mqtt_machba.I2c.Scan.{cells, AllLength, Answers, detect_devices-cells}

-- A sensor at the address 0x38 and one at 0x77, and an address at which a probe times out.
abbrev answer : ℕ → EspErr
answer a =
    if a == 56
    then esp_ok
    else if a == 119
    then esp_ok
    else if a == 80
    then esp_err_timeout
    else idf 261

-- A world that counts the probes.
abbrev sensors : Bus ℕ
sensors = record {
  i2c_master_transmit = λ _ _ n. (esp_ok, n);
  i2c_master_transmit_receive = λ _ _ _ n. (esp_ok, [], n);
  i2c_master_receive = λ _ _ n. (esp_ok, [], n);
  i2c_master_probe = λ a n. (answer a, suc n);
  i2c_master_bus_add_device = λ _ _ n. (esp_ok, 1, n);
  i2c_master_bus_rm_device = λ _ n. (esp_ok, n);
  esp_timer_get_time = λ n. (0, n);
  config_tick_rate_hz = 100;
}

sensors-Answers : Answers sensors answer
sensors-Answers = record { answered = λ a w. refl }

-- A scan probes every address once.
probes : (i2c_master_bus_detect_devices sensors 0).2 ≡ 128
unfolding i2c_master_bus_detect_devices
probes = refl

detect_devices-cells_example :
    let r = i2c_master_bus_detect_devices sensors 0 in
    (r.0 ≡ esp_ok) × (concat r.1 ≡ cells answer 128 0) × (length r.1 ≡ 8) × AllLength 16 r.1
detect_devices-cells_example = detect_devices-cells sensors answer sensors-Answers 0

abbrev transmitted_to : List ℕ → (ℕ → ℕ) → ℕ → ℕ
transmitted_to [] m = m
transmitted_to (a ∷ bytes) m = stored a bytes m

abbrev received_from : List ℕ → ℕ → (ℕ → ℕ) → List ℕ
received_from [] n m = []
received_from (a ∷ rest) n m = loaded a n m

-- A device of registers, each of which is written and read at its address.
abbrev registers : Bus (ℕ → ℕ)
registers = record {
  i2c_master_transmit = λ _ tx m. (esp_ok, transmitted_to tx m);
  i2c_master_transmit_receive = λ _ tx n m. (esp_ok, received_from tx n m, m);
  i2c_master_receive = λ _ _ m. (esp_ok, [], m);
  i2c_master_probe = λ _ m. (esp_ok, m);
  i2c_master_bus_add_device = λ _ _ m. (esp_ok, 1, m);
  i2c_master_bus_rm_device = λ _ m. (esp_ok, m);
  esp_timer_get_time = λ m. (0, m);
  config_tick_rate_hz = 100;
}

registers-MemoryLaws : MemoryLaws registers 1 (λ m. m)
registers-MemoryLaws = record {
  transmitted = λ a bytes m. refl;
  written = λ a bytes m i. refl;
  received = λ a n m. refl;
  read = λ a n m. refl;
}

abbrev zeros : Dev ⊤ (ℕ → ℕ)
zeros = record { handle = none; world = λ a. 0 }

write_uint16-read_uint32_example :
    let r =
      (i2c_master_bus_write_uint16 {H = ⊤} registers 1 8 (305419896 % 2 ^ 16)
          >> i2c_master_bus_write_uint16 registers 1 (8 + 2) (305419896 / 2 ^ 16))
        zeros in
    (r.0 ≡ ret tt)
    × ((i2c_master_bus_read_uint16 registers 1 8 r.1).0 ≡ ret (305419896 % 2 ^ 16))
    × ((i2c_master_bus_read_uint16 registers 1 (8 + 2) r.1).0 ≡ ret (305419896 / 2 ^ 16))
    × ((i2c_master_bus_read_uint32 registers 1 8 r.1).0 ≡ ret 305419896)
write_uint16-read_uint32_example =
    write_uint16-read_uint32 registers 1 (λ m. m) registers-MemoryLaws 8 305419896 zeros
