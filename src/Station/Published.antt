-- ===== src/Station/Published.antt =====
-- What the station publishes in any number of passes.
use mathlib.Core.List.{append-nil, append_assoc}
use mathlib.Core.Path.{fun_ext, subst}
use esp32_s3_i2c_mqtt_machba.Base.{ℕ, ◌≡◌, ◌∙◌, sym, ap, true, some, List, [], ◌∷◌, ◌++◌, map}
use esp32_s3_i2c_mqtt_machba.Esp.{Os, Tm}
use esp32_s3_i2c_mqtt_machba.Float.{Fp}
use esp32_s3_i2c_mqtt_machba.Window.{Window}
use esp32_s3_i2c_mqtt_machba.Window.History.{IsFresh}
use esp32_s3_i2c_mqtt_machba.Trend.Handle.{Trend}
use esp32_s3_i2c_mqtt_machba.I2c.{Bus}
use esp32_s3_i2c_mqtt_machba.I2c.Action.{ret}
use esp32_s3_i2c_mqtt_machba.Interval.Handle.{
  time_into_interval_delay, time_into_interval_get_last_event,
}
use esp32_s3_i2c_mqtt_machba.Station.Sample.{Parameter, Store}
use esp32_s3_i2c_mqtt_machba.Station.Queue.{QueueService, QueueLaws}
use esp32_s3_i2c_mqtt_machba.Station.Tasks.{Readings, Station, wake}
use esp32_s3_i2c_mqtt_machba.Station.Delivery.{Run-OnTime}
use esp32_s3_i2c_mqtt_machba.Station.Rounds.{
  IsDrained, reading, report, sampled, sending_order, wake-OnTime, published-report,
}
use esp32_s3_i2c_mqtt_machba.Station.Measure.{Sensors}
use esp32_s3_i2c_mqtt_machba.Station.Histories.{Tracks, AreOf, Extends, measure-Extends}
use esp32_s3_i2c_mqtt_machba.Station.Cycle.{Loop, sample_pass}
use esp32_s3_i2c_mqtt_machba.Station.Identity.{IsOf, Identified, wake-Identified, Run-Identified}
use esp32_s3_i2c_mqtt_machba.Station.Log.{observed, sample_of, analysed, log}
use esp32_s3_i2c_mqtt_machba.Station.Passes.{Passes, end, pass, KeepsUp, sample_pass-reported}

module _ {F D : Type 0} (fp : Fp F D) where
  sampled-sample_of :
      (store : Store F) (event : ℕ) (r : Readings F) (p : Parameter)
      → IsOf p (store p)
      → sampled fp store event r p ≡ sample_of fp event r p
  sampled-sample_of store event r p h = rw (h.own_device, h.own_parameter)

  report-sample_of :
      (store : Store F) (event : ℕ) (r : Readings F)
      → Identified store
      → report fp store event r ≡ map (sample_of fp event r) sending_order
  report-sample_of store event r h =
      ap (λ f. map f sending_order) (fun_ext (λ p. sampled-sample_of store event r p (h p)))

module _ {F D W : Type 0} (fp : Fp F D) (os : Os W) (bus : Bus W) (next_tm : Tm) (size long : ℕ)
    (ta₀ pa₀ : Trend F D) (w₀ : Window F) (fresh_ta : IsFresh fp.f_nan size ta₀.window)
    (fresh_pa : IsFresh fp.f_nan size pa₀.window) (fresh_tendency : IsFresh fp.f_nan long w₀) where
  AreOf-analysed :
      (event : ℕ) (tas pas : List F) (r : Readings F)
      → AreOf fp os bus size long ta₀ pa₀ w₀ fresh_ta fresh_pa fresh_tendency tas pas r
      → r ≡ analysed fp ta₀.critical_t pa₀.critical_t size long tas pas (observed (event, r))
  AreOf-analysed event tas pas r h = λ i. record {
    measurements = r.measurements;
    temperature_trend = h.temperature_trend_of i;
    pressure = r.pressure;
    pressure_trend = h.pressure_trend_of i;
    tendency = h.tendency_code_of i;
    change = h.change_of i;
  }

  -- A pass that has reported has extended the histories.
  pub sample_pass-Extends :
      (fuel : ℕ) (tas pas : List F) (l l' : Loop F D W) (event : ℕ) (r : Readings F)
      → Tracks fp os bus size long ta₀ pa₀ w₀ fresh_ta fresh_pa fresh_tendency tas pas l.sensors
      → sample_pass fp os bus next_tm fuel true l ≡ (ret (some (event, r)), l')
      → Extends fp os bus size long ta₀ pa₀ w₀ fresh_ta fresh_pa fresh_tendency tas pas
          (ret r, l'.sensors)
  sample_pass-Extends fuel tas pas l l' event r tracks h =
      let d = time_into_interval_delay os next_tm l.tii_sampling_hdl l.sensors.world in
      let g = time_into_interval_get_last_event os next_tm d.1 l.epoch_timestamp d.2 in
      let n : Sensors F D W = record l.sensors { world = g.2 } in
      let extends =
        measure-Extends fp os bus size long ta₀ pa₀ w₀ fresh_ta fresh_pa fresh_tendency fuel tas pas
          n
          (record {
            temperatures = tracks.temperatures;
            pressures = tracks.pressures;
            tendencies = tracks.tendencies;
          }) in
      let (measured, _, _) = sample_pass-reported fp os bus next_tm fuel l l' event r h in
      subst (Extends fp os bus size long ta₀ pa₀ w₀ fresh_ta fresh_pa fresh_tendency tas pas)
        measured extends

  module _ {Q : Type 0} (service : QueueService Q) (contents : Q → List Parameter)
      (laws : QueueLaws service contents) (fuel : ℕ) where
    -- The samples that passes publish, when the publishing task keeps up with the rounds and in any
    -- interleaving of the two tasks within a round, are those of the log of what the devices have
    -- reported.
    pub Passes-published :
        (l' : Loop F D W) (s' : Station F Q) (tas pas : List F) (past : List (ℕ × Readings F))
        (l : Loop F D W) (s : Station F Q)
        → Tracks fp os bus size long ta₀ pa₀ w₀ fresh_ta fresh_pa fresh_tendency tas pas l.sensors
        → s.mqtt_connected ≡ true
        → IsDrained fp service contents laws s
        → Identified s.store
        → (passes : Passes fp os bus next_tm service fuel l' s' past l s)
        → KeepsUp fp os bus next_tm service contents laws fuel passes
        → s'.published
          ≡ s.published
            ++ log fp ta₀.critical_t pa₀.critical_t size long tas pas (map observed past)
    Passes-published l' s' tas pas _ _ _ tracks on drained identified end up = sym (append-nil _)
    Passes-published l' s' tas pas _ l s tracks on drained identified
          (pass {rest} {l₁} {s₁} event r measured run ended passes) (drained₁, up) =
        let (codes, tracks₁) =
          sample_pass-Extends fuel tas pas l l₁ event r tracks (rw on at measured) in
        let tas' = tas ++ reading fp r Parameter.air_temperature ∷ [] in
        let pas' = pas ++ reading fp r Parameter.atmospheric_pressure ∷ [] in
        let delivered =
          published-report fp service contents laws event r s on drained s₁ run drained₁ in
        let timely =
          Run-OnTime fp service contents laws (s.published ++ report fp s.store event r) s.refused
            (wake fp service event r s) s₁ run
            (wake-OnTime fp service contents laws event r s on drained) in
        let identified₁ =
          Run-Identified fp service (wake fp service event r s) s₁ run
            (wake-Identified fp service event r s identified) in
        let later =
          Passes-published l' s' tas' pas' rest l₁ s₁ tracks₁ timely.connected drained₁ identified₁
            passes up in
        let same = AreOf-analysed event tas' pas' r codes in
        let own = report-sample_of fp s.store event r identified in
        let ta_critical = ta₀.critical_t in
        let pa_critical = pa₀.critical_t in
        let others = log fp ta_critical pa_critical size long tas' pas' (map observed rest) in
        let round : report fp s.store event r
            ≡ map
                (sample_of fp event
                  (analysed fp ta_critical pa_critical size long tas' pas' (observed (event, r))))
                sending_order =
          own ∙ ap (λ q. map (sample_of fp event q) sending_order) same in
        later
        ∙ ap (λ published. published ++ others) (delivered ∙ ap (λ q. s.published ++ q) round)
        ∙ append_assoc s.published _ others
