-- ===== src/Station/Cycles.antt =====
-- What a pass of the sampling loop reports.
use esp32_s3_i2c_mqtt_machba.Base.{⊤, ℕ, ◌^◌, ◌<◌, ◌≡◌, ◌≢◌, refl, true, Option, none, some, List}
use esp32_s3_i2c_mqtt_machba.Esp.{Os, Tm}
use esp32_s3_i2c_mqtt_machba.Float.{Fp}
use esp32_s3_i2c_mqtt_machba.Window.{Window}
use esp32_s3_i2c_mqtt_machba.Window.History.{IsFresh}
use esp32_s3_i2c_mqtt_machba.Trend.Handle.{Trend}
use esp32_s3_i2c_mqtt_machba.I2c.{Bus}
use esp32_s3_i2c_mqtt_machba.I2c.Action.{Outcome, ret, fail, aborted, out_of_fuel}
use esp32_s3_i2c_mqtt_machba.Interval.Handle.{
  Handle, delay_until, time_into_interval_delay, time_into_interval_get_last_event,
}
use esp32_s3_i2c_mqtt_machba.Interval.Wake.{IsAccepted, delay-get_last_event}
use esp32_s3_i2c_mqtt_machba.Station.Tasks.{Readings}
use esp32_s3_i2c_mqtt_machba.Station.Measure.{Sensors, measure}
use esp32_s3_i2c_mqtt_machba.Station.Histories.{Tracks, Extends, measure-Extends}
use esp32_s3_i2c_mqtt_machba.Station.Cycle.{Loop, with_event, sample_pass}

module _ {F D W : Type 0} (fp : Fp F D) (os : Os W) (bus : Bus W) (next_tm : Tm) (size long : ℕ)
    (ta₀ pa₀ : Trend F D) (w₀ : Window F) (fresh_ta : IsFresh fp.f_nan size ta₀.window)
    (fresh_pa : IsFresh fp.f_nan size pa₀.window) (fresh_tendency : IsFresh fp.f_nan long w₀) where
  -- A pass that reports has this event and extends the histories by its readings.
  abbrev pub ReportsAt :
      ℕ → List F → List F → Outcome (Option (ℕ × Readings F)) × Loop F D W → Type 0
  ReportsAt event tas pas (ret (some (t, r)), s) =
      (t ≡ event)
      × Extends fp os bus size long ta₀ pa₀ w₀ fresh_ta fresh_pa fresh_tendency tas pas
          (ret r, s.sensors)
  ReportsAt event tas pas (ret none, s) = ⊥
  ReportsAt event tas pas _ = ⊤

  with_event-ReportsAt :
      (tas pas : List F) (hdl : Option Handle) (event : ℕ)
      (r : Outcome (Readings F) × Sensors F D W)
      → Extends fp os bus size long ta₀ pa₀ w₀ fresh_ta fresh_pa fresh_tendency tas pas r
      → ReportsAt event tas pas (with_event fp os bus next_tm hdl event r)
  with_event-ReportsAt tas pas hdl event (ret r, n) h = (refl, h)
  with_event-ReportsAt tas pas hdl event (fail e, n) h = tt
  with_event-ReportsAt tas pas hdl event (aborted e, n) h = tt
  with_event-ReportsAt tas pas hdl event (out_of_fuel, n) h = tt

  -- A pass with a link, on a handle whose event after the wait is set and below 2 ^ 63, and on
  -- handles that have analysed any readings before: unless it is aborted it reports the event that it has
  -- waited for, and readings whose codes are those of the histories with these readings.
  pub sample_pass-ReportsAt :
      (fuel : ℕ) (tas pas : List F) (s : Loop F D W) (h : Handle)
      → s.tii_sampling_hdl ≡ some h
      → Tracks fp os bus size long ta₀ pa₀ w₀ fresh_ta fresh_pa fresh_tendency tas pas s.sensors
      → let awaited = (delay_until os next_tm h s.sensors.world).0 in
        IsAccepted awaited
        → awaited.epoch_timestamp ≢ 0
        → awaited.epoch_timestamp < 2 ^ 63
        → ReportsAt awaited.epoch_timestamp tas pas (sample_pass fp os bus next_tm fuel true s)
  unfolding sample_pass
  sample_pass-ReportsAt fuel tas pas s h there tracks accepted set below =
      let w = s.sensors.world in
      let d = time_into_interval_delay os next_tm (some h) w in
      let (_, _, event) =
        delay-get_last_event os next_tm h w d.2 s.epoch_timestamp accepted set below in
      let g = time_into_interval_get_last_event os next_tm d.1 s.epoch_timestamp d.2 in
      let n : Sensors F D W = record s.sensors { world = g.2 } in
      let extends =
        measure-Extends fp os bus size long ta₀ pa₀ w₀ fresh_ta fresh_pa fresh_tendency fuel tas pas
          n
          (record {
            temperatures = tracks.temperatures;
            pressures = tracks.pressures;
            tendencies = tracks.tendencies;
          }) in
      rw there
        (rw (← event) (with_event-ReportsAt tas pas d.1 g.1 (measure fp os bus fuel n) extends))
