-- ===== src/Station/Examples/SetUp.antt =====
-- The set-up of the sampling task on a board that works.
use esp32_s3_i2c_mqtt_machba.Base.{◌≡◌, refl, Bool, true, false, Option, none, some}
use esp32_s3_i2c_mqtt_machba.Base.Int.{ℤ}
use esp32_s3_i2c_mqtt_machba.Esp.{esp_ok, Tm}
use esp32_s3_i2c_mqtt_machba.Float.Whole.{whole}
use esp32_s3_i2c_mqtt_machba.Trend.Fit.{TrendCode}
use esp32_s3_i2c_mqtt_machba.Tendency.{TendencyCode}
use esp32_s3_i2c_mqtt_machba.Bmp280.Board as Board
use esp32_s3_i2c_mqtt_machba.Bmp280.Board.{board_os, timed_bus}
use esp32_s3_i2c_mqtt_machba.Station.Setup.{Services, Variables, set_up_task}
use esp32_s3_i2c_mqtt_machba.Station.Ready.{Ensures, IsReady, set_up_task-Ensures}
use esp32_s3_i2c_mqtt_machba.Ahtxx.Device as AhtxxDevice
use esp32_s3_i2c_mqtt_machba.Ahtxx.Init as AhtxxInit
use esp32_s3_i2c_mqtt_machba.Bmp280.Device as Bmp280Device
use esp32_s3_i2c_mqtt_machba.Bmp280.Init as Bmp280Init
use esp32_s3_i2c_mqtt_machba.Bmp280.Registers as Bmp280Registers
use esp32_s3_i2c_mqtt_machba.I2c.Action as I2cAction
use esp32_s3_i2c_mqtt_machba.I2c.Transfer as I2cTransfer
use esp32_s3_i2c_mqtt_machba.Interval.Event as IntervalEvent
use esp32_s3_i2c_mqtt_machba.Interval.Handle as IntervalHandle
use esp32_s3_i2c_mqtt_machba.Interval.Normalize as IntervalNormalize
use esp32_s3_i2c_mqtt_machba.Station.Sample as StationSample
use esp32_s3_i2c_mqtt_machba.Station.Setup as StationSetup
use esp32_s3_i2c_mqtt_machba.Tendency as TendencyTop
use esp32_s3_i2c_mqtt_machba.Trend.Critical as TrendCritical
use esp32_s3_i2c_mqtt_machba.Trend.Handle as TrendHandle
use esp32_s3_i2c_mqtt_machba.Window as WindowTop

abbrev pub stale_tm : Tm
stale_tm = record {
  tm_sec = 0;
  tm_min = 0;
  tm_hour = 0;
  tm_mday = 1;
  tm_mon = 0;
  tm_year = 70;
  tm_isdst = 0;
}

abbrev pub board_services : Services Board.Board
board_services = record {
  x_queue_create = λ n b. (some n, b);
  i2c_new_master_bus = λ out b. (esp_ok, some 1, b);
}

abbrev pub null_variables : Variables (Option ℤ) (Option ℤ)
null_variables = record {
  tii_sampling_hdl = none;
  tii_1hr_hdl = none;
  i2c0_bus_hdl = none;
  bmp280_dev_hdl = none;
  ahtxx_dev_hdl = none;
  pa_trend_hdl = none;
  pa_tendency_hdl = none;
  ta_trend_hdl = none;
  ta_trend_code = TrendCode.unknown;
  pa_trend_code = TrendCode.unknown;
  pa_tendency_code = TendencyCode.unknown;
}

set_up_task-Ensures_example :
    Ensures
      (IsReady whole board_os timed_bus board_services stale_tm)
      (set_up_task whole board_os timed_bus board_services stale_tm null_variables Board.board)
set_up_task-Ensures_example =
    set_up_task-Ensures whole board_os timed_bus board_services stale_tm null_variables Board.board
      refl refl refl refl

abbrev pub is_set_up : {A : Type 0} → Option A → Bool
is_set_up none = false
is_set_up (some a) = true

-- On a board that works the set-up comes to its end.
pub sets_up :
    is_set_up
      (set_up_task whole board_os timed_bus board_services stale_tm null_variables Board.board)
    ≡ true
unfolding set_up_task AhtxxDevice.i2c_ahtxx_get_status_register AhtxxDevice.i2c_ahtxx_reset
    AhtxxDevice.i2c_ahtxx_setup AhtxxDevice.set_up_unless_ready AhtxxInit.i2c_ahtxx_init
    AhtxxInit.init_device AhtxxInit.init_finish AhtxxInit.init_handle AhtxxInit.init_probed
    AhtxxInit.start_up Bmp280Device.i2c_bmp280_get_chip_id_register
    Bmp280Device.i2c_bmp280_get_configuration_register
    Bmp280Device.i2c_bmp280_get_control_measurement_register
    Bmp280Device.i2c_bmp280_set_configuration_register
    Bmp280Device.i2c_bmp280_set_control_measurement_register Bmp280Init.i2c_bmp280_get_cal_factors
    Bmp280Init.i2c_bmp280_get_registers Bmp280Init.i2c_bmp280_init Bmp280Init.i2c_bmp280_reset
    Bmp280Init.init_device Bmp280Init.init_factors Bmp280Init.init_finish Bmp280Init.init_handle
    Bmp280Init.init_probed Bmp280Init.set_up Bmp280Registers.with_iir_filter
    Bmp280Registers.with_power_mode Bmp280Registers.with_pressure_oversampling
    Bmp280Registers.with_reserved Bmp280Registers.with_standby_time
    Bmp280Registers.with_temperature_oversampling I2cAction.effect I2cAction.esp_arg_check
    I2cAction.esp_error_check I2cAction.modify I2cAction.pure I2cAction.raise I2cAction.status
    I2cAction.status_with I2cAction.◌>>=◌ I2cTransfer.i2c_master_bus_read_uint16
    I2cTransfer.i2c_master_bus_read_uint8 I2cTransfer.i2c_master_bus_write_cmd
    I2cTransfer.i2c_master_bus_write_uint8 IntervalEvent.advance IntervalEvent.exceed_next_tm
    IntervalEvent.first_event IntervalEvent.get_epoch_timestamp IntervalEvent.init_next_tm
    IntervalEvent.not_ahead IntervalEvent.set_epoch_timestamp_event IntervalEvent.start_tm
    IntervalEvent.timeval_msec IntervalHandle.get_hash_code IntervalHandle.init_handle
    IntervalHandle.time_into_interval_init IntervalNormalize.normalize_interval_to_msec
    IntervalNormalize.normalize_interval_to_sec StationSample.create_sample
    StationSample.created_sample StationSetup.pure StationSetup.start_samples StationSetup.◌>>=◌
    TendencyTop.init_handle TendencyTop.init_samples TendencyTop.pressure_tendency_init
    TrendCritical.clamp_probability TrendCritical.pwr TrendCritical.q_inv TrendCritical.q_sums
    TrendCritical.t_inv TrendCritical.t_sum TrendCritical.terms TrendHandle.init_handle
    TrendHandle.init_samples TrendHandle.new_trend TrendHandle.scalar_trend_init WindowTop.cleared
sets_up = refl
