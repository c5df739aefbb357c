-- ===== src/Station/Cycle.antt =====
-- src/main.c: a pass of the loop of `sample_sensor_task` with its wait, up to the sends.
use esp32_s3_i2c_mqtt_machba.Base.{ℕ, Bool, Option, none, some, if◌then◌else◌}
use esp32_s3_i2c_mqtt_machba.Esp.{Os, Tm}
use esp32_s3_i2c_mqtt_machba.Float.{Fp}
use esp32_s3_i2c_mqtt_machba.I2c.{Bus}
use esp32_s3_i2c_mqtt_machba.I2c.Action.{Outcome, ret, fail, aborted, out_of_fuel}
use esp32_s3_i2c_mqtt_machba.Interval.Handle.{
  Handle, time_into_interval_delay, time_into_interval_get_last_event,
}
use esp32_s3_i2c_mqtt_machba.Station.Tasks.{Readings}
use esp32_s3_i2c_mqtt_machba.Station.Measure.{Sensors, measure}

-- The handle of the interval, the variable for the time of the event, and the sensors with the
-- world.
pub record Loop (F D W : Type 0) : Type 0 where
  pub tii_sampling_hdl : Option Handle
  pub epoch_timestamp : ℕ
  pub sensors : Sensors F D W

module _ {F D W : Type 0} (fp : Fp F D) (os : Os W) (bus : Bus W) (next_tm : Tm) where
  -- The measurements of a pass, with the time of its event.
  abbrev pub with_event :
      Option Handle
      → ℕ
      → Outcome (Readings F) × Sensors F D W
      → Outcome (Option (ℕ × Readings F)) × Loop F D W
  with_event hdl event (ret r, n) = (
    ret (some (event, r)),
    record { tii_sampling_hdl = hdl; epoch_timestamp = event; sensors = n },
  )
  with_event hdl event (fail e, n) =
      (fail e, record { tii_sampling_hdl = hdl; epoch_timestamp = event; sensors = n })
  with_event hdl event (aborted e, n) =
      (aborted e, record { tii_sampling_hdl = hdl; epoch_timestamp = event; sensors = n })
  with_event hdl event (out_of_fuel, n) =
      (out_of_fuel, record { tii_sampling_hdl = hdl; epoch_timestamp = event; sensors = n })

  -- A pass, given whether there is a link: the time of its event in milliseconds and its readings,
  -- or nothing without a link. The statuses of the two calls on the handle are not looked at.
  unfoldable pub sample_pass :
      ℕ → Bool → Loop F D W → Outcome (Option (ℕ × Readings F)) × Loop F D W
  sample_pass fuel mqtt_connected s =
      let n = s.sensors in
      let (_, hdl, w) = time_into_interval_delay os next_tm s.tii_sampling_hdl n.world in
      let (_, event, w') = time_into_interval_get_last_event os next_tm hdl s.epoch_timestamp w in
      if mqtt_connected
      then with_event hdl event (measure fp os bus fuel (record n { world = w' }))
      else (ret none, record s { tii_sampling_hdl = hdl; sensors = record n { world = w } })
