-- ===== src/Station/Examples/Still.antt =====
-- A pass of the station after its set-up, in a world that never changes: the clock stands still, and
-- each register reads 0 but that of the chip identifier.
use esp32_s3_i2c_mqtt_machba.Base.{
  ⊤, ℕ, ◌==◌, if◌then◌else◌, ◌≡◌, refl, Bool, true, false, Option, none, some, List, [], ◌∷◌, arith,
}
use esp32_s3_i2c_mqtt_machba.Base.Int.{ℤ}
use esp32_s3_i2c_mqtt_machba.Float.Whole.{whole}
use esp32_s3_i2c_mqtt_machba.I2c.Action.{Outcome, ret, fail, aborted, out_of_fuel}
use esp32_s3_i2c_mqtt_machba.Esp.{Os, esp_ok}
use esp32_s3_i2c_mqtt_machba.I2c.{Bus}
use esp32_s3_i2c_mqtt_machba.Interval.Event.{
  timeval_msec, set_epoch_timestamp_event, first_event, start_tm, advance, not_ahead, init_next_tm,
  exceed_next_tm,
}
use esp32_s3_i2c_mqtt_machba.Interval.Pace.{ClockLaws}
use esp32_s3_i2c_mqtt_machba.Station.Sample.{Parameter}
use esp32_s3_i2c_mqtt_machba.Station.Tasks.{Readings}
use esp32_s3_i2c_mqtt_machba.Station.Cycle.{Loop, sample_pass}
use esp32_s3_i2c_mqtt_machba.Station.Setup.{Services, Task, set_up_task}
use esp32_s3_i2c_mqtt_machba.Station.Operation.{loop_of}
use esp32_s3_i2c_mqtt_machba.Interval.Normalize.{normalize_interval_to_msec}
use esp32_s3_i2c_mqtt_machba.Interval.Handle.{time_into_interval_delay}
use esp32_s3_i2c_mqtt_machba.Station.Examples.SetUp.{stale_tm, null_variables, is_set_up}
use esp32_s3_i2c_mqtt_machba.Ahtxx.Device as AhtxxDevice
use esp32_s3_i2c_mqtt_machba.Ahtxx.Init as AhtxxInit
use esp32_s3_i2c_mqtt_machba.Ahtxx.Measure as AhtxxMeasure
use esp32_s3_i2c_mqtt_machba.Base.Int as BaseInt
use esp32_s3_i2c_mqtt_machba.Bmp280.Compensate as Bmp280Compensate
use esp32_s3_i2c_mqtt_machba.Bmp280.Device as Bmp280Device
use esp32_s3_i2c_mqtt_machba.Bmp280.Init as Bmp280Init
use esp32_s3_i2c_mqtt_machba.Bmp280.Measure as Bmp280Measure
use esp32_s3_i2c_mqtt_machba.Bmp280.Registers as Bmp280Registers
use esp32_s3_i2c_mqtt_machba.I2c.Action as I2cAction
use esp32_s3_i2c_mqtt_machba.I2c.Transfer as I2cTransfer
use esp32_s3_i2c_mqtt_machba.Interval.Event as IntervalEvent
use esp32_s3_i2c_mqtt_machba.Interval.Handle as IntervalHandle
use esp32_s3_i2c_mqtt_machba.Interval.Normalize as IntervalNormalize
use esp32_s3_i2c_mqtt_machba.Station.Measure as StationMeasure
use esp32_s3_i2c_mqtt_machba.Station.Sample as StationSample
use esp32_s3_i2c_mqtt_machba.Station.Setup as StationSetup
use esp32_s3_i2c_mqtt_machba.Tendency as TendencyTop
use esp32_s3_i2c_mqtt_machba.Trend.Critical as TrendCritical
use esp32_s3_i2c_mqtt_machba.Trend.Fit as TrendFit
use esp32_s3_i2c_mqtt_machba.Trend.Handle as TrendHandle
use esp32_s3_i2c_mqtt_machba.Window as WindowTop

abbrev pub still_os : Os ⊤
still_os = record {
  gettimeofday = λ w. (true, record { tv_sec = 1000; tv_usec = 0 }, w);
  localtime_r = λ t. stale_tm;
  mktime = λ tm. 960;
  calloc = λ w. (true, w);
  free = λ w. w;
  x_semaphore_create_mutex = λ w. (7, w);
  x_semaphore_take = λ _ w. w;
  x_semaphore_give = λ _ w. w;
  v_task_delay = λ _ w. w;
  port_tick_period_ms = 10;
}

abbrev register : List ℕ → List ℕ
register (r ∷ rest) = if r == 208 then 88 ∷ [] else []
register [] = []

abbrev pub still_bus : Bus ⊤
still_bus = record {
  i2c_master_transmit = λ dev tx w. (esp_ok, w);
  i2c_master_transmit_receive = λ dev tx n w. (esp_ok, register tx, w);
  i2c_master_receive = λ _ _ w. (esp_ok, [], w);
  i2c_master_probe = λ _ w. (esp_ok, w);
  i2c_master_bus_add_device = λ _ _ w. (esp_ok, 9, w);
  i2c_master_bus_rm_device = λ _ w. (esp_ok, w);
  esp_timer_get_time = λ w. (1000, w);
  config_tick_rate_hz = 100;
}

abbrev pub still_services : Services ⊤
still_services = record {
  x_queue_create = λ n w. (some n, w);
  i2c_new_master_bus = λ out w. (esp_ok, some 1, w);
}

pub still-ClockLaws : ClockLaws still_os stale_tm
unfolding timeval_msec
still-ClockLaws = record {
  is_read = λ w. refl;
  forward = λ w. omega arith;
  clock_below = λ w. omega arith;
  start_below = λ t p w. omega arith;
}

from_some : {A : Type 0} (r : Option A) → is_set_up r ≡ true → (x : A) × (r ≡ some x)
from_some none h = cc
from_some (some x) h = (x, refl)

abbrev pub Answer : Type 0
Answer = Outcome (Option (ℕ × Readings (Option ℤ))) × Loop (Option ℤ) (Option ℤ) ⊤

abbrev reports : Answer → Bool
reports (ret (some x), l) = true
reports _ = false

pub from_report :
    (q : Answer)
    → reports q ≡ true
    → (x : ℕ × Readings (Option ℤ)) × (l : Loop (Option ℤ) (Option ℤ) ⊤) × (q ≡ (ret (some x), l))
from_report (ret none, l) h = cc
from_report (ret (some x), l) h = (x, l, refl)
from_report (fail e, l) h = cc
from_report (aborted e, l) h = cc
from_report (out_of_fuel, l) h = cc

abbrev set_up : Option (Task (Option ℤ) (Option ℤ) × ⊤)
set_up = set_up_task whole still_os still_bus still_services stale_tm null_variables tt

set_up_ends : is_set_up set_up ≡ true
unfolding set_up_task AhtxxDevice.i2c_ahtxx_get_status_register AhtxxDevice.i2c_ahtxx_reset
    AhtxxDevice.i2c_ahtxx_setup AhtxxDevice.set_up_unless_ready AhtxxInit.i2c_ahtxx_init
    AhtxxInit.init_device AhtxxInit.init_finish AhtxxInit.init_handle AhtxxInit.init_probed
    AhtxxInit.start_up Bmp280Device.i2c_bmp280_get_chip_id_register
    Bmp280Device.i2c_bmp280_get_configuration_register
    Bmp280Device.i2c_bmp280_get_control_measurement_register
    Bmp280Device.i2c_bmp280_set_configuration_register
    Bmp280Device.i2c_bmp280_set_control_measurement_register Bmp280Init.i2c_bmp280_get_cal_factors
    Bmp280Init.i2c_bmp280_get_registers Bmp280Init.i2c_bmp280_init Bmp280Init.i2c_bmp280_reset
    Bmp280Init.init_device Bmp280Init.init_factors Bmp280Init.init_finish Bmp280Init.init_handle
    Bmp280Init.init_probed Bmp280Init.set_up Bmp280Registers.with_iir_filter
    Bmp280Registers.with_power_mode Bmp280Registers.with_pressure_oversampling
    Bmp280Registers.with_reserved Bmp280Registers.with_standby_time
    Bmp280Registers.with_temperature_oversampling I2cAction.effect I2cAction.esp_arg_check
    I2cAction.esp_error_check I2cAction.modify I2cAction.pure I2cAction.raise I2cAction.status
    I2cAction.status_with I2cAction.◌>>=◌ I2cTransfer.i2c_master_bus_read_uint16
    I2cTransfer.i2c_master_bus_read_uint8 I2cTransfer.i2c_master_bus_write_cmd
    I2cTransfer.i2c_master_bus_write_uint8 IntervalEvent.advance IntervalEvent.exceed_next_tm
    IntervalEvent.first_event IntervalEvent.get_epoch_timestamp IntervalEvent.init_next_tm
    IntervalEvent.not_ahead IntervalEvent.set_epoch_timestamp_event IntervalEvent.start_tm
    IntervalEvent.timeval_msec IntervalHandle.get_hash_code IntervalHandle.init_handle
    IntervalHandle.time_into_interval_init IntervalNormalize.normalize_interval_to_msec
    IntervalNormalize.normalize_interval_to_sec StationSample.create_sample
    StationSample.created_sample StationSetup.pure StationSetup.start_samples StationSetup.◌>>=◌
    TendencyTop.init_handle TendencyTop.init_samples TendencyTop.pressure_tendency_init
    TrendCritical.clamp_probability TrendCritical.pwr TrendCritical.q_inv TrendCritical.q_sums
    TrendCritical.t_inv TrendCritical.t_sum TrendCritical.terms TrendHandle.init_handle
    TrendHandle.init_samples TrendHandle.new_trend TrendHandle.scalar_trend_init WindowTop.cleared
set_up_ends = refl

pub ready_state : (x : Task (Option ℤ) (Option ℤ) × ⊤) × (set_up ≡ some x)
ready_state = from_some set_up set_up_ends

pub pass_reports :
    (t : Task (Option ℤ) (Option ℤ)) (w : ⊤)
    → reports
        (sample_pass whole still_os still_bus stale_tm 250000 true (loop_of null_variables t 0 w))
      ≡ true
unfolding sample_pass StationMeasure.measure StationMeasure.sense_ahtxx
    AhtxxMeasure.i2c_ahtxx_get_measurements I2cAction.◌>>=◌ I2cAction.esp_arg_check
    AhtxxMeasure.i2c_ahtxx_get_measurement I2cAction.status I2cAction.effect I2cAction.status_with
    AhtxxMeasure.i2c_ahtxx_calculate_dewpoint AhtxxMeasure.temperature_of BaseInt.◌-ℤ◌ BaseInt.div_ℤ
    AhtxxMeasure.raw_temperature AhtxxMeasure.humidity_of AhtxxMeasure.raw_humidity
    StationMeasure.sense_bmp280 AhtxxMeasure.dewpoint_of BaseInt.mod_ℤ BaseInt.shr_ℤ BaseInt.◌*ℤ◌
    BaseInt.◌+ℤ◌ Bmp280Compensate.fine_temperature Bmp280Compensate.i2c_bmp280_compensate_pressure
    Bmp280Compensate.i2c_bmp280_compensate_temperature Bmp280Compensate.pressure_divisor
    Bmp280Compensate.raw20 Bmp280Device.i2c_bmp280_get_status_register
    Bmp280Measure.i2c_bmp280_get_data_status Bmp280Measure.i2c_bmp280_get_fixed_measurements
    Bmp280Measure.i2c_bmp280_get_pressure Bmp280Measure.poll I2cAction.esp_error_check
    I2cAction.gets I2cAction.modify I2cAction.pure I2cAction.raise
    I2cTransfer.i2c_master_bus_read_byte48 I2cTransfer.i2c_master_bus_read_uint8
    IntervalEvent.advance IntervalEvent.exceed_next_tm IntervalEvent.first_event
    IntervalEvent.get_epoch_timestamp_msec IntervalEvent.init_next_tm IntervalEvent.not_ahead
    IntervalEvent.set_epoch_timestamp_event IntervalEvent.start_tm timeval_msec
    IntervalHandle.delay_until IntervalHandle.set_next_event IntervalHandle.ticks_until
    IntervalHandle.time_into_interval_delay IntervalHandle.time_into_interval_get_last_event
    IntervalNormalize.normalize_interval_to_msec StationMeasure.analyse_pressure
    StationMeasure.analyse_temperature TendencyTop.classify TendencyTop.pressure_tendency_analysis
    TendencyTop.verdict TrendFit.fit TrendFit.sse_from TrendFit.sums_from
    TrendHandle.scalar_trend_analysis TrendHandle.verdict WindowTop.push WindowTop.shift
pass_reports t w = refl
