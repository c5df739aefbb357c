-- ===== src/Station/Examples/Sensing.antt =====
-- The theorems on the measurements of the station, with the board of the pressure sensor.
use esp32_s3_i2c_mqtt_machba.Base.{
  ◌^◌, ◌<◌, ◌≡◌, refl, false, Option, none, some, [], ◌∷◌, codes, arith,
}
use esp32_s3_i2c_mqtt_machba.Base.Int.{ℤ, pos, ◌-ℤ◌, div_ℤ}
use esp32_s3_i2c_mqtt_machba.Esp.{Tm}
use esp32_s3_i2c_mqtt_machba.Float.Whole.{whole}
use esp32_s3_i2c_mqtt_machba.Window.{Window}
use esp32_s3_i2c_mqtt_machba.Window.History.{IsFresh}
use esp32_s3_i2c_mqtt_machba.Trend.Fit.{TrendCode}
use esp32_s3_i2c_mqtt_machba.Trend.Handle.{Trend}
use esp32_s3_i2c_mqtt_machba.Tendency.{TendencyCode}
use esp32_s3_i2c_mqtt_machba.I2c.Ends.{runs_out}
use esp32_s3_i2c_mqtt_machba.Interval.Normalize.{IntervalType, normalize_interval_to_msec}
use esp32_s3_i2c_mqtt_machba.Interval.Event.{timeval_msec}
use esp32_s3_i2c_mqtt_machba.Interval.Handle.{Handle, delay_until}
use esp32_s3_i2c_mqtt_machba.Interval.Wake.{IsAccepted, delay_until_ahead}
use esp32_s3_i2c_mqtt_machba.Ahtxx.Device.{AhtType}
use esp32_s3_i2c_mqtt_machba.Ahtxx.Measure.{
  i2c_ahtxx_get_measurement, i2c_ahtxx_get_measurements, i2c_ahtxx_calculate_dewpoint,
  temperature_of, humidity_of, raw_temperature, raw_humidity,
}
use esp32_s3_i2c_mqtt_machba.I2c.Action.{
  ◌>>=◌, esp_arg_check, effect, status, status_with, pure, raise,
}
use esp32_s3_i2c_mqtt_machba.Bmp280.Board as Board
use esp32_s3_i2c_mqtt_machba.Bmp280.Board.{board_os, timed_bus, board_time, board-TimerLaws}
use esp32_s3_i2c_mqtt_machba.Station.Measure.{Sensors, settle_bus, sense_ahtxx, measure}
use esp32_s3_i2c_mqtt_machba.Station.Histories.{Tracks}
use esp32_s3_i2c_mqtt_machba.Station.Cycle.{Loop}
use esp32_s3_i2c_mqtt_machba.Station.Termination.{measure-ends}

abbrev fresh_window : Window (Option ℤ)
fresh_window = record { samples_count = 0; samples_size = 3; samples = none ∷ none ∷ none ∷ [] }

fresh_window-IsFresh : IsFresh {F = Option ℤ} none 3 fresh_window
fresh_window-IsFresh = (
  record { sized = refl; counted = omega arith; nonempty = omega arith; small = omega arith },
  refl,
  refl,
)

abbrev fresh_trend : Trend (Option ℤ) (Option ℤ)
fresh_trend = record { critical_t = some (pos 4); window = fresh_window }

abbrev sensors : Sensors (Option ℤ) (Option ℤ) Board.Board
sensors = record {
  ahtxx = some (record { i2c_dev_handle = 8; aht_type = AhtType.aht10; status_reg = 24 });
  bmp280 = some Board.handle;
  ta_trend = some fresh_trend;
  pa_trend = some fresh_trend;
  pa_tendency = some fresh_window;
  ta_trend_code = TrendCode.unknown;
  pa_trend_code = TrendCode.unknown;
  pa_tendency_code = TendencyCode.unknown;
  pa_change = none;
  world = Board.board;
}

sensed_early :
    board_time
      (settle_bus whole board_os timed_bus (sense_ahtxx whole board_os timed_bus sensors).1).world
    < 2 ^ 61
unfolding sense_ahtxx i2c_ahtxx_get_measurements i2c_ahtxx_get_measurement
    i2c_ahtxx_calculate_dewpoint ◌>>=◌ esp_arg_check effect status status_with pure raise
    temperature_of ◌-ℤ◌ div_ℤ raw_temperature humidity_of raw_humidity
sensed_early = omega arith

measure-ends_example : runs_out (measure whole board_os timed_bus 250000 sensors).0 ≡ false
measure-ends_example =
    measure-ends whole board_os timed_bus board_time board-TimerLaws 250000 sensors (omega arith)
      sensed_early

abbrev sampling_handle : Handle
sampling_handle = record {
  name = codes "tii_sampling";
  epoch_timestamp = 6000;
  interval_type = IntervalType.sec;
  interval_period = 6;
  interval_offset = 0;
  hash_code = 0;
  mutex_handle = 7;
}

abbrev stale_tm : Tm
stale_tm = record {
  tm_sec = 0;
  tm_min = 0;
  tm_hour = 0;
  tm_mday = 1;
  tm_mon = 0;
  tm_year = 70;
  tm_isdst = 0;
}

abbrev sampling_loop : Loop (Option ℤ) (Option ℤ) Board.Board
sampling_loop = record {
  tii_sampling_hdl = some sampling_handle;
  epoch_timestamp = 0;
  sensors = sensors;
}

awaited : (delay_until board_os stale_tm sampling_handle Board.board).0 ≡ sampling_handle
awaited =
    (delay_until_ahead board_os stale_tm sampling_handle Board.board (omega arith) refl
      (unfold timeval_msec in omega arith)).0

sampling_handle-IsAccepted : IsAccepted sampling_handle
unfolding normalize_interval_to_msec
sampling_handle-IsAccepted = (omega arith, omega arith, omega arith)

sensors-Tracks :
    Tracks whole board_os timed_bus 3 3 fresh_trend fresh_trend fresh_window fresh_window-IsFresh
      fresh_window-IsFresh fresh_window-IsFresh [] [] sensors
sensors-Tracks = record { temperatures = refl; pressures = refl; tendencies = refl }
