-- ===== src/Station/Sample.antt =====
-- src/main.c: the sample parameters and the sample objects.
use esp32_s3_i2c_mqtt_machba.Base.{
  ℕ, Bool, true, false, Option, none, some, List, ◌==◌, if◌then◌else◌, codes,
}
use esp32_s3_i2c_mqtt_machba.Esp.{Os}
use esp32_s3_i2c_mqtt_machba.Float.{Fp}

-- `sample_parameters_t`
pub data Parameter : Type 0 where
  air_temperature air_temperature_trend dewpoint_temperature relative_humidity atmospheric_pressure
        atmospheric_pressure_tendency atmospheric_pressure_change atmospheric_pressure_trend :
      Parameter

-- The number of an enumerator.
abbrev pub parameter_number : Parameter → ℕ
parameter_number air_temperature = 0
parameter_number air_temperature_trend = 1
parameter_number dewpoint_temperature = 2
parameter_number relative_humidity = 3
parameter_number atmospheric_pressure = 4
parameter_number atmospheric_pressure_tendency = 5
parameter_number atmospheric_pressure_change = 6
parameter_number atmospheric_pressure_trend = 7

-- `sample_parameter_to_string`
unfoldable pub sample_parameter_to_string : Parameter → List ℕ
sample_parameter_to_string air_temperature = codes "Air-Temperature"
sample_parameter_to_string air_temperature_trend = codes "Air-Temperature-Trend"
sample_parameter_to_string dewpoint_temperature = codes "Dewpoint-Temperature"
sample_parameter_to_string relative_humidity = codes "Relative-Humidity"
sample_parameter_to_string atmospheric_pressure = codes "Atmospheric-Pressure"
sample_parameter_to_string atmospheric_pressure_tendency = codes "Atmospheric-Pressure-Tendency"
sample_parameter_to_string atmospheric_pressure_change = codes "Atmospheric-Pressure-Change"
sample_parameter_to_string atmospheric_pressure_trend = codes "Atmospheric-Pressure-Trend"

-- `environmental_sample_t`
pub record Sample (F : Type 0) : Type 0 where
  pub device_id : List ℕ
  pub timestamp : ℕ
  pub parameter : Parameter
  pub value : F

-- `MQTT_NET_DEVICE_ID`
abbrev pub mqtt_net_device_id : List ℕ
mqtt_net_device_id = codes "CA.NB.AWS.01-1000"

module _ {F D W : Type 0} (fp : Fp F D) (os : Os W) where
  -- `create_sample` on what `calloc` returned.
  unfoldable pub created_sample : List ℕ → Parameter → Bool × W → Option (Sample F) × W
  created_sample device_id parameter (false, w) = (none, w)
  created_sample device_id parameter (true, w) = (
    some (record { device_id = device_id; timestamp = 0; parameter = parameter; value = fp.f_nan }),
    w,
  )

  -- `create_sample`
  unfoldable pub create_sample : List ℕ → Parameter → W → Option (Sample F) × W
  unfolding created_sample
  create_sample device_id parameter w = created_sample device_id parameter (os.calloc w)

-- The eight sample objects, one for each parameter. A pointer to one of them is its parameter.
abbrev pub Store : Type 0 → Type 0
Store F = Parameter → Sample F

-- A write through a pointer.
unfoldable pub write_sample : {F : Type 0} → Parameter → (Sample F → Sample F) → Store F → Store F
write_sample p f store q = if parameter_number p == parameter_number q then f (store q) else store q
