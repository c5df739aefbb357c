-- ===== src/Bmp280/Modes.antt =====
-- bmp280.h: the enumerations of the settings, with the values that the source gives them.
use esp32_s3_i2c_mqtt_machba.Base.{ℕ, ◌%◌, ◌≡◌, refl}

-- `i2c_bmp280_iir_filters_t`
pub data IirFilter : Type 0 where
  iir_filter_off iir_filter_2 iir_filter_4 iir_filter_8 iir_filter_16 : IirFilter

abbrev pub iir_filter_value : IirFilter → ℕ
iir_filter_value iir_filter_off = 0
iir_filter_value iir_filter_2 = 1
iir_filter_value iir_filter_4 = 2
iir_filter_value iir_filter_8 = 3
iir_filter_value iir_filter_16 = 4

-- `i2c_bmp280_standby_times_t`
pub data StandbyTime : Type 0 where
  standby_time_0_5ms standby_time_62_5ms standby_time_125ms standby_time_250ms : StandbyTime
  standby_time_500ms standby_time_1000ms standby_time_2000ms standby_time_4000ms : StandbyTime

abbrev pub standby_time_value : StandbyTime → ℕ
standby_time_value standby_time_0_5ms = 0
standby_time_value standby_time_62_5ms = 1
standby_time_value standby_time_125ms = 2
standby_time_value standby_time_250ms = 3
standby_time_value standby_time_500ms = 4
standby_time_value standby_time_1000ms = 5
standby_time_value standby_time_2000ms = 6
standby_time_value standby_time_4000ms = 7

-- `i2c_bmp280_power_modes_t`
pub data PowerMode : Type 0 where
  power_mode_sleep power_mode_forced power_mode_forced1 power_mode_normal : PowerMode

abbrev pub power_mode_value : PowerMode → ℕ
power_mode_value power_mode_sleep = 0
power_mode_value power_mode_forced = 1
power_mode_value power_mode_forced1 = 2
power_mode_value power_mode_normal = 3

-- `i2c_bmp280_pressure_oversampling_t`
pub data PressureOversampling : Type 0 where
  pressure_oversampling_skipped pressure_oversampling_1x : PressureOversampling
  pressure_oversampling_2x pressure_oversampling_4x : PressureOversampling
  pressure_oversampling_8x pressure_oversampling_16x : PressureOversampling

abbrev pub pressure_oversampling_value : PressureOversampling → ℕ
pressure_oversampling_value pressure_oversampling_skipped = 0
pressure_oversampling_value pressure_oversampling_1x = 1
pressure_oversampling_value pressure_oversampling_2x = 2
pressure_oversampling_value pressure_oversampling_4x = 3
pressure_oversampling_value pressure_oversampling_8x = 4
pressure_oversampling_value pressure_oversampling_16x = 5

-- `i2c_bmp280_temperature_oversampling_t`
pub data TemperatureOversampling : Type 0 where
  temperature_oversampling_skipped temperature_oversampling_1x : TemperatureOversampling
  temperature_oversampling_2x temperature_oversampling_4x : TemperatureOversampling
  temperature_oversampling_8x temperature_oversampling_16x : TemperatureOversampling
  temperature_oversampling_16x1 temperature_oversampling_16x2 : TemperatureOversampling

abbrev pub temperature_oversampling_value : TemperatureOversampling → ℕ
temperature_oversampling_value temperature_oversampling_skipped = 0
temperature_oversampling_value temperature_oversampling_1x = 1
temperature_oversampling_value temperature_oversampling_2x = 2
temperature_oversampling_value temperature_oversampling_4x = 3
temperature_oversampling_value temperature_oversampling_8x = 4
temperature_oversampling_value temperature_oversampling_16x = 5
temperature_oversampling_value temperature_oversampling_16x1 = 6
temperature_oversampling_value temperature_oversampling_16x2 = 7

-- Each value fits into its bit field.
pub iir_filter_value-fits : (f : IirFilter) → iir_filter_value f % 8 ≡ iir_filter_value f
iir_filter_value-fits iir_filter_off = refl
iir_filter_value-fits iir_filter_2 = refl
iir_filter_value-fits iir_filter_4 = refl
iir_filter_value-fits iir_filter_8 = refl
iir_filter_value-fits iir_filter_16 = refl

pub standby_time_value-fits : (t : StandbyTime) → standby_time_value t % 8 ≡ standby_time_value t
standby_time_value-fits standby_time_0_5ms = refl
standby_time_value-fits standby_time_62_5ms = refl
standby_time_value-fits standby_time_125ms = refl
standby_time_value-fits standby_time_250ms = refl
standby_time_value-fits standby_time_500ms = refl
standby_time_value-fits standby_time_1000ms = refl
standby_time_value-fits standby_time_2000ms = refl
standby_time_value-fits standby_time_4000ms = refl

pub power_mode_value-fits : (m : PowerMode) → power_mode_value m % 4 ≡ power_mode_value m
power_mode_value-fits power_mode_sleep = refl
power_mode_value-fits power_mode_forced = refl
power_mode_value-fits power_mode_forced1 = refl
power_mode_value-fits power_mode_normal = refl

pub pressure_oversampling_value-fits :
    (p : PressureOversampling) → pressure_oversampling_value p % 8 ≡ pressure_oversampling_value p
pressure_oversampling_value-fits pressure_oversampling_skipped = refl
pressure_oversampling_value-fits pressure_oversampling_1x = refl
pressure_oversampling_value-fits pressure_oversampling_2x = refl
pressure_oversampling_value-fits pressure_oversampling_4x = refl
pressure_oversampling_value-fits pressure_oversampling_8x = refl
pressure_oversampling_value-fits pressure_oversampling_16x = refl

pub temperature_oversampling_value-fits :
    (t : TemperatureOversampling)
    → temperature_oversampling_value t % 8 ≡ temperature_oversampling_value t
temperature_oversampling_value-fits temperature_oversampling_skipped = refl
temperature_oversampling_value-fits temperature_oversampling_1x = refl
temperature_oversampling_value-fits temperature_oversampling_2x = refl
temperature_oversampling_value-fits temperature_oversampling_4x = refl
temperature_oversampling_value-fits temperature_oversampling_8x = refl
temperature_oversampling_value-fits temperature_oversampling_16x = refl
temperature_oversampling_value-fits temperature_oversampling_16x1 = refl
temperature_oversampling_value-fits temperature_oversampling_16x2 = refl
