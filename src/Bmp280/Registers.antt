-- ===== src/Bmp280/Registers.antt =====
-- bmp280.h: the bit fields of the registers, on the byte that holds them. A field that is written
-- keeps the low bits of the value, and the other fields as they were.
use esp32_s3_i2c_mqtt_machba.Base.{ℕ, ◌+◌, ◌*◌, ◌/◌, ◌%◌, ◌<◌, ◌≡◌, arith}

-- `i2c_bmp280_status_register_t`
abbrev pub measuring : ℕ → ℕ
measuring reg = reg / 8 % 2

-- `i2c_bmp280_control_measurement_register_t`
abbrev pub power_mode : ℕ → ℕ
power_mode reg = reg % 4

abbrev pub pressure_oversampling : ℕ → ℕ
pressure_oversampling reg = reg / 4 % 8

abbrev pub temperature_oversampling : ℕ → ℕ
temperature_oversampling reg = reg / 32 % 8

unfoldable pub with_power_mode : ℕ → ℕ → ℕ
with_power_mode v reg = reg / 4 * 4 + v % 4

unfoldable pub with_pressure_oversampling : ℕ → ℕ → ℕ
with_pressure_oversampling v reg = reg / 32 * 32 + v % 8 * 4 + reg % 4

unfoldable pub with_temperature_oversampling : ℕ → ℕ → ℕ
with_temperature_oversampling v reg = v % 8 * 32 + reg % 32

-- `i2c_bmp280_configuration_register_t`
abbrev pub iir_filter : ℕ → ℕ
iir_filter reg = reg / 4 % 8

abbrev pub standby_time : ℕ → ℕ
standby_time reg = reg / 32 % 8

unfoldable pub with_reserved : ℕ → ℕ → ℕ
with_reserved v reg = reg / 4 * 4 + v % 2 * 2 + reg % 2

unfoldable pub with_iir_filter : ℕ → ℕ → ℕ
with_iir_filter v reg = reg / 32 * 32 + v % 8 * 4 + reg % 4

unfoldable pub with_standby_time : ℕ → ℕ → ℕ
with_standby_time v reg = v % 8 * 32 + reg % 32

-- A control measurement register is its three fields, and a write of each of them, in the order of
-- an initialization, leaves a byte that holds exactly the three values.
pub with-control_fields :
    (mode temperature pressure reg : ℕ)
    → mode < 4
    → temperature < 8
    → pressure < 8
    → reg < 256
    → let r =
        with_pressure_oversampling pressure
          (with_temperature_oversampling temperature (with_power_mode mode reg)) in
      (r < 256)
      × (power_mode r ≡ mode)
      × (pressure_oversampling r ≡ pressure)
      × (temperature_oversampling r ≡ temperature)
unfolding with_pressure_oversampling with_temperature_oversampling with_power_mode
with-control_fields mode temperature pressure reg hm ht hp hr =
    (omega arith, omega arith, omega arith, omega arith)

-- A write of one field of the control measurement register changes that field and no other one.
pub with-other_fields :
    (v reg : ℕ)
    → reg < 256
    → (power_mode (with_power_mode v reg) ≡ v % 4)
      × (pressure_oversampling (with_power_mode v reg) ≡ pressure_oversampling reg)
      × (temperature_oversampling (with_power_mode v reg) ≡ temperature_oversampling reg)
      × (power_mode (with_pressure_oversampling v reg) ≡ power_mode reg)
      × (pressure_oversampling (with_pressure_oversampling v reg) ≡ v % 8)
      × (temperature_oversampling (with_pressure_oversampling v reg) ≡ temperature_oversampling reg)
      × (power_mode (with_temperature_oversampling v reg) ≡ power_mode reg)
      × (pressure_oversampling (with_temperature_oversampling v reg) ≡ pressure_oversampling reg)
      × (temperature_oversampling (with_temperature_oversampling v reg) ≡ v % 8)
unfolding with_pressure_oversampling with_temperature_oversampling with_power_mode
with-other_fields v reg hr = omega arith
