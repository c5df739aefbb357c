-- ===== src/Ahtxx/Measure.antt =====
-- ahtxx.c: the measurements and the dew point.
use esp32_s3_i2c_mqtt_machba.Base.{
  ℕ, ◌+◌, ◌*◌, ◌/◌, ◌%◌, ◌^◌, ◌<◌, ◌≡◌, Bool, ◌||◌, Option, none, some, List, [], ◌∷◌, get_or,
  if◌then◌else◌, arith,
}
use esp32_s3_i2c_mqtt_machba.Base.Word.{u32}
use esp32_s3_i2c_mqtt_machba.Esp.{Os, esp_err_invalid_arg}
use esp32_s3_i2c_mqtt_machba.Float.{Fp}
use esp32_s3_i2c_mqtt_machba.I2c.{Bus}
use esp32_s3_i2c_mqtt_machba.I2c.Action.{
  pure, raise, ◌>>=◌, ◌>>◌, esp_arg_check, status, status_with, delay_ms,
}
use esp32_s3_i2c_mqtt_machba.Ahtxx.Device.{Aht}

-- The raw humidity: 20 bits, from the byte 1 on.
unfoldable pub raw_humidity : List ℕ → ℕ
raw_humidity rx = get_or rx 1 0 * 2 ^ 12 + get_or rx 2 0 * 2 ^ 4 + get_or rx 3 0 / 2 ^ 4

-- The raw temperature: the 20 bits that follow.
unfoldable pub raw_temperature : List ℕ → ℕ
raw_temperature rx = get_or rx 3 0 % 2 ^ 4 * 2 ^ 16 + get_or rx 4 0 * 2 ^ 8 + get_or rx 5 0

-- The bytes that a sensor sends: a status, 20 bits of humidity and 20 bits of temperature, high
-- bits first.
abbrev pub data_frame : ℕ → ℕ → ℕ → List ℕ
data_frame status_byte h t =
    status_byte
    ∷ h / 2 ^ 12
    ∷ h / 2 ^ 4 % 2 ^ 8
    ∷ (h % 2 ^ 4 * 2 ^ 4 + t / 2 ^ 16)
    ∷ t / 2 ^ 8 % 2 ^ 8
    ∷ t % 2 ^ 8
    ∷ []

-- The raw humidity and the raw temperature are read back from the frame that holds them.
pub raw-data_frame :
    (status_byte h t : ℕ)
    → h < 2 ^ 20
    → t < 2 ^ 20
    → (raw_humidity (data_frame status_byte h t) ≡ h)
      × (raw_temperature (data_frame status_byte h t) ≡ t)
unfolding raw_humidity raw_temperature
raw-data_frame status_byte h t hh ht = (omega arith, omega arith)

module _ {F D : Type 0} (fp : Fp F D) where
  abbrev float_of : ℕ → F
  float_of n = fp.narrow (fp.of_nat n)

  -- `(float)(raw * 100) / (float)0x100000`
  unfoldable pub humidity_of : ℕ → F
  humidity_of raw = fp.f_div (float_of (u32 (raw * 100))) (float_of 0x100000)

  -- `(float)(raw * 200) / (float)0x100000 - 50`
  unfoldable pub temperature_of : ℕ → F
  temperature_of raw =
      fp.f_sub (fp.f_div (float_of (u32 (raw * 200))) (float_of 0x100000)) (float_of 50)

  -- The dew point's formula.
  unfoldable pub dewpoint_of : F → F → F
  dewpoint_of temperature humidity =
      let t = fp.widen temperature in
      let a = fp.lit 1762 2 in
      let b = fp.lit 24312 2 in
      let h =
        fp.add (fp.div (fp.sub (fp.log10 (fp.widen humidity)) (fp.of_nat 2)) (fp.lit 4343 4))
          (fp.div (fp.mul a t) (fp.add b t)) in
      fp.narrow (fp.div (fp.mul b h) (fp.sub a h))

  -- The arguments that `i2c_ahtxx_calculate_dewpoint` refuses.
  abbrev refused : D → D → Bool
  refused t h =
      fp.eq t (fp.of_nat 0)
      || fp.eq h (fp.of_nat 0)
      || fp.lt (fp.of_nat 80) t
      || fp.lt t (fp.neg (fp.of_nat 40))
      || fp.lt (fp.of_nat 100) h
      || fp.lt h (fp.of_nat 0)

  -- `i2c_ahtxx_calculate_dewpoint`, `none` for ESP_ERR_INVALID_ARG.
  unfoldable pub i2c_ahtxx_calculate_dewpoint : F → F → Option F
  unfolding dewpoint_of
  i2c_ahtxx_calculate_dewpoint temperature humidity =
      if refused (fp.widen temperature) (fp.widen humidity)
      then none
      else some (dewpoint_of temperature humidity)

  module _ {W : Type 0} (os : Os W) (bus : Bus W) where
    -- `i2c_ahtxx_get_measurement`: the temperature and the humidity.
    unfoldable pub i2c_ahtxx_get_measurement : Aht os bus (F × F)
    i2c_ahtxx_get_measurement = do
      h ← esp_arg_check
      status (bus.i2c_master_transmit h.i2c_dev_handle (0xac ∷ 0x33 ∷ 0x00 ∷ []))
      delay_ms os bus 100
      rx ← status_with (bus.i2c_master_receive h.i2c_dev_handle 6)
      delay_ms os bus 5
      pure (temperature_of (raw_temperature rx), humidity_of (raw_humidity rx))

    -- The status of the dew point, as the call returns it.
    abbrev pub or_invalid_arg : Option F → Aht os bus F
    or_invalid_arg none = raise esp_err_invalid_arg
    or_invalid_arg (some d) = pure d

    -- `i2c_ahtxx_get_measurements`: the temperature, the humidity and the dew point.
    -- When the dew point is refused the source has set the first two outputs all the same.
    unfoldable pub i2c_ahtxx_get_measurements : Aht os bus (F × F × F)
    i2c_ahtxx_get_measurements = do
      esp_arg_check
      m ← i2c_ahtxx_get_measurement
      d ← or_invalid_arg (i2c_ahtxx_calculate_dewpoint m.0 m.1)
      pure (m.0, m.1, d)
