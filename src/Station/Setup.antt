-- ===== src/Station/Setup.antt =====
-- src/main.c: the set-up of `sample_sensor_task`, up to its loop. It ends in the state of the task,
-- or with a restart.
use esp32_s3_i2c_mqtt_machba.Base.{⊤, ℕ, ◌/◌, ◌*◌, true, Option, none, some, codes}
use esp32_s3_i2c_mqtt_machba.Esp.{EspErr, Os, Tm}
use esp32_s3_i2c_mqtt_machba.Float.{Fp}
use esp32_s3_i2c_mqtt_machba.Window.{Window}
use esp32_s3_i2c_mqtt_machba.Interval.Normalize.{IntervalType}
use esp32_s3_i2c_mqtt_machba.Interval.Handle as Tii
use esp32_s3_i2c_mqtt_machba.Interval.Handle.{time_into_interval_init}
use esp32_s3_i2c_mqtt_machba.Trend.Fit.{TrendCode}
use esp32_s3_i2c_mqtt_machba.Trend.Handle.{Trend, scalar_trend_init}
use esp32_s3_i2c_mqtt_machba.Tendency.{TendencyCode, pressure_tendency_init}
use esp32_s3_i2c_mqtt_machba.I2c.{Bus}
use esp32_s3_i2c_mqtt_machba.I2c.Action.{Outcome, ret, fail, aborted, out_of_fuel}
use esp32_s3_i2c_mqtt_machba.Bmp280.Device.{Bmp280}
use esp32_s3_i2c_mqtt_machba.Bmp280.Init as BmpInit
use esp32_s3_i2c_mqtt_machba.Bmp280.Init.{i2c_bmp280_init}
use esp32_s3_i2c_mqtt_machba.Ahtxx.Device.{Ahtxx, AhtType}
use esp32_s3_i2c_mqtt_machba.Ahtxx.Init as AhtInit
use esp32_s3_i2c_mqtt_machba.Ahtxx.Init.{i2c_ahtxx_init}
use esp32_s3_i2c_mqtt_machba.Station.Sample.{
  Parameter, Sample, Store, create_sample, mqtt_net_device_id,
}
use esp32_s3_i2c_mqtt_machba.Station.Queue.{mqtt_pub_env_queue_size}

-- A part of the set-up: `none` is a restart of the system, by `esp_restart` or by an abort.
abbrev pub Boot : Type 0 → Type 0 → Type 0
Boot W A = W → Option (A × W)

infixl 5 ◌>>=◌ ◌>>◌
unfoldable pub ◌>>=◌ : {W A B : Type 0} → Boot W A → (A → Boot W B) → Boot W B
◌>>=◌ m f w = elim (m w) [ none ↦ none | some (a, w') ↦ f a w' ]

abbrev pub ◌>>◌ : {W A B : Type 0} → Boot W A → Boot W B → Boot W B
m >> k = m >>= λ _. k

unfoldable pub pure : {W A : Type 0} → A → Boot W A
pure a w = some (a, w)

-- A restart if a handle or a sample is null.
abbrev pub or_restart : {W A : Type 0} → Option A × W → Option (A × W)
or_restart (none, w) = none
or_restart (some a, w) = some (a, w)

-- The same for a call whose status is not looked at.
abbrev pub ignoring_status : {W A : Type 0} → EspErr × Option A × W → Option (A × W)
ignoring_status (e, h, w) = or_restart (h, w)

-- The same for a call that may itself abort the program.
abbrev pub unless_aborted : {W A : Type 0} → Outcome ⊤ × Option A × W → Option (A × W)
unless_aborted (ret t, h, w) = or_restart (h, w)
unless_aborted (fail e, h, w) = or_restart (h, w)
unless_aborted (aborted e, h, w) = none
unless_aborted (out_of_fuel, h, w) = none

-- `tii_sampling_cfg` and `tii_1hr_cfg`
abbrev pub tii_sampling_cfg : Tii.Config
tii_sampling_cfg = record {
  name = codes "tii_sampling";
  interval_type = IntervalType.sec;
  interval_period = 6;
  interval_offset = 0;
}

abbrev pub tii_1hr_cfg : Tii.Config
tii_1hr_cfg = record {
  name = codes "tii_1hr";
  interval_type = IntervalType.hr;
  interval_period = 1;
  interval_offset = 0;
}

-- `I2C_BMP280_CONFIG_DEFAULT` and `I2C_AHT2X_CONFIG_DEFAULT`
abbrev pub bmp280_dev_cfg : BmpInit.Config
bmp280_dev_cfg = record {
  device_address = 0x77;
  scl_speed_hz = 100000;
  config_power_mode = 3;
  config_iir_filter = 0;
  config_pressure_oversampling = 3;
  config_temperature_oversampling = 1;
  config_standby_time = 3;
}

abbrev pub ahtxx_dev_cfg : AhtInit.Config
ahtxx_dev_cfg = record {
  device_address = 0x38;
  scl_speed_hz = 100000;
  config_aht_type = AhtType.aht2x;
}

-- The sizes of the windows, in samples.
abbrev pub trend_samples_size : ℕ
trend_samples_size = 3600 / 6

abbrev pub tendency_samples_size : ℕ
tendency_samples_size = 3600 * 3 / 6

-- The services of the set-up: the queue, of this size, and the bus, given what its variable holds.
pub record Services (W : Type 0) : Type 0 where
  pub x_queue_create : ℕ → W → Option ℕ × W
  pub i2c_new_master_bus : Option ℕ → W → EspErr × Option ℕ × W

-- The objects by their parameters.
abbrev pub store_of : {F : Type 0} → (ta tatrd td hr pa patrd patdc patdcv : Sample F) → Store F
store_of ta tatrd td hr pa patrd patdc patdcv Parameter.air_temperature = ta
store_of ta tatrd td hr pa patrd patdc patdcv Parameter.air_temperature_trend = tatrd
store_of ta tatrd td hr pa patrd patdc patdcv Parameter.dewpoint_temperature = td
store_of ta tatrd td hr pa patrd patdc patdcv Parameter.relative_humidity = hr
store_of ta tatrd td hr pa patrd patdc patdcv Parameter.atmospheric_pressure = pa
store_of ta tatrd td hr pa patrd patdc patdcv Parameter.atmospheric_pressure_tendency = patdc
store_of ta tatrd td hr pa patrd patdc patdcv Parameter.atmospheric_pressure_change = patdcv
store_of ta tatrd td hr pa patrd patdc patdcv Parameter.atmospheric_pressure_trend = patrd

-- What the variables of the task hold, none of which the source initialises.
pub record Variables (F D : Type 0) : Type 0 where
  pub tii_sampling_hdl : Option Tii.Handle
  pub tii_1hr_hdl : Option Tii.Handle
  pub i2c0_bus_hdl : Option ℕ
  pub bmp280_dev_hdl : Option Bmp280
  pub ahtxx_dev_hdl : Option Ahtxx
  pub pa_trend_hdl : Option (Trend F D)
  pub pa_tendency_hdl : Option (Window F)
  pub ta_trend_hdl : Option (Trend F D)
  pub ta_trend_code : TrendCode
  pub pa_trend_code : TrendCode
  pub pa_tendency_code : TendencyCode

-- The state in which the task enters its loop.
pub record Task (F D : Type 0) : Type 0 where
  pub tii_sampling : Tii.Handle
  pub bmp280 : Bmp280
  pub ahtxx : Ahtxx
  pub pa_trend : Trend F D
  pub pa_tendency : Window F
  pub ta_trend : Trend F D
  pub samples : Store F

module _ {F D W : Type 0} (fp : Fp F D) (os : Os W) (bus : Bus W) (services : Services W)
    (next_tm : Tm) where
  -- The handles, in the order of the source.
  abbrev create_queue : Boot W ℕ
  create_queue w = or_restart (services.x_queue_create mqtt_pub_env_queue_size w)

  abbrev pub start_tii : Tii.Config → Option Tii.Handle → Boot W Tii.Handle
  start_tii c out w = ignoring_status (time_into_interval_init os next_tm c out w)

  abbrev start_bus : Option ℕ → Boot W ℕ
  start_bus out w = ignoring_status (services.i2c_new_master_bus out w)

  abbrev start_bmp280 : Option Bmp280 → Boot W Bmp280
  start_bmp280 out w = unless_aborted (i2c_bmp280_init os bus true (some bmp280_dev_cfg) out w)

  abbrev start_ahtxx : Option Ahtxx → Boot W Ahtxx
  start_ahtxx out w = unless_aborted (i2c_ahtxx_init os bus true (some ahtxx_dev_cfg) out w)

  abbrev pub start_trend : Option (Trend F D) → Boot W (Trend F D)
  start_trend out w = ignoring_status (scalar_trend_init fp os trend_samples_size out w)

  abbrev pub start_tendency : Option (Window F) → Boot W (Window F)
  start_tendency out w = ignoring_status (pressure_tendency_init fp os tendency_samples_size out w)

  abbrev pub start_sample : Parameter → Boot W (Sample F)
  start_sample p w = or_restart (create_sample fp os mqtt_net_device_id p w)

  -- The eight samples, in the order of the source.
  unfoldable pub start_samples : Boot W (Store F)
  start_samples = do
    ta ← start_sample Parameter.air_temperature
    tatrd ← start_sample Parameter.air_temperature_trend
    td ← start_sample Parameter.dewpoint_temperature
    hr ← start_sample Parameter.relative_humidity
    pa ← start_sample Parameter.atmospheric_pressure
    patrd ← start_sample Parameter.atmospheric_pressure_trend
    patdc ← start_sample Parameter.atmospheric_pressure_tendency
    patdcv ← start_sample Parameter.atmospheric_pressure_change
    pure (store_of ta tatrd td hr pa patrd patdc patdcv)

  -- `sample_sensor_task` up to its loop.
  unfoldable pub set_up_task : Variables F D → Boot W (Task F D)
  unfolding start_samples
  set_up_task v = do
    create_queue
    tii_sampling ← start_tii tii_sampling_cfg v.tii_sampling_hdl
    start_tii tii_1hr_cfg v.tii_1hr_hdl
    start_bus v.i2c0_bus_hdl
    bmp280 ← start_bmp280 v.bmp280_dev_hdl
    ahtxx ← start_ahtxx v.ahtxx_dev_hdl
    pa_trend ← start_trend v.pa_trend_hdl
    pa_tendency ← start_tendency v.pa_tendency_hdl
    ta_trend ← start_trend v.ta_trend_hdl
    samples ← start_samples
    pure (record {
      tii_sampling = tii_sampling;
      bmp280 = bmp280;
      ahtxx = ahtxx;
      pa_trend = pa_trend;
      pa_tendency = pa_tendency;
      ta_trend = ta_trend;
      samples = samples;
    })
