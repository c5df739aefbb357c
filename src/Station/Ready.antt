-- ===== src/Station/Ready.antt =====
-- The state in which the sampling task enters its loop.
use esp32_s3_i2c_mqtt_machba.Base.{⊤, ◌≡◌, refl, Bool, true, false, Option, none, some, arith}
use esp32_s3_i2c_mqtt_machba.Esp.{EspErr, esp_ok, Os, Tm}
use esp32_s3_i2c_mqtt_machba.Float.{Fp}
use esp32_s3_i2c_mqtt_machba.Window.{Window}
use esp32_s3_i2c_mqtt_machba.Window.History.{IsFresh}
use esp32_s3_i2c_mqtt_machba.Interval.Handle as Tii
use esp32_s3_i2c_mqtt_machba.Interval.Lifecycle as Lifecycle
use esp32_s3_i2c_mqtt_machba.Interval.Handle.{time_into_interval_init}
use esp32_s3_i2c_mqtt_machba.Tendency.{pressure_tendency_init}
use esp32_s3_i2c_mqtt_machba.Trend.Handle.{Trend, scalar_trend_init}
use esp32_s3_i2c_mqtt_machba.Trend.History as TrendHistory
use esp32_s3_i2c_mqtt_machba.Tendency.History as TendencyHistory
use esp32_s3_i2c_mqtt_machba.I2c.{Bus}
use esp32_s3_i2c_mqtt_machba.Station.Sample.{
  Parameter, Sample, Store, created_sample, create_sample, mqtt_net_device_id,
}
use esp32_s3_i2c_mqtt_machba.Station.Identity.{IsOf, Identified}
use esp32_s3_i2c_mqtt_machba.Interval.Pace as Pace
use esp32_s3_i2c_mqtt_machba.Station.Setup.{
  Boot, ◌>>=◌, or_restart, pure, ignoring_status, Services, Variables, Task, store_of,
  tii_sampling_cfg, start_tii, trend_samples_size, start_trend, tendency_samples_size,
  start_tendency, start_sample, start_samples, set_up_task,
}

-- A part of the set-up that does not restart the system ends with such a value.
abbrev pub Ensures : {W A : Type 0} → (A → Type 0) → Option (A × W) → Type 0
Ensures P none = ⊤
Ensures P (some (a, w)) = P a

any : {W A : Type 0} (r : Option (A × W)) → Ensures (λ _. ⊤) r
any none = tt
any (some (a, w)) = tt

module _ {W A B : Type 0} (P : A → Type 0) (Q : B → Type 0) where
  bind-Ensures :
      (m : Boot W A) (f : A → Boot W B) (w : W)
      → Ensures P (m w)
      → ((a : A) (w' : W) → P a → Ensures Q (f a w'))
      → Ensures Q ((m >>= f) w)
  unfolding ◌>>=◌
  bind-Ensures m f w h rest = from (m w) h
    where
      from :
          (r : Option (A × W))
          → Ensures P r
          → Ensures Q (elim r [ none ↦ none | some (a, w') ↦ f a w' ])
      from none h = tt
      from (some (a, w')) h = rest a w' h

module _ {F D W : Type 0} (fp : Fp F D) (os : Os W) (bus : Bus W) (services : Services W)
    (next_tm : Tm) where
  trend-Ensures :
      (e : EspErr) (h : Option (Trend F D)) (w : W)
      → TrendHistory.Initialized fp trend_samples_size none e h
      → Ensures (λ t. IsFresh fp.f_nan trend_samples_size t.window) (ignoring_status (e, h, w))
  trend-Ensures e none w i = tt
  trend-Ensures esp_ok (some t) w i = i.1
  trend-Ensures _ (some t) w i = cc

  tendency-Ensures :
      (e : EspErr) (h : Option (Window F)) (w : W)
      → TendencyHistory.Initialized fp tendency_samples_size none e h
      → Ensures (λ t. IsFresh fp.f_nan tendency_samples_size t) (ignoring_status (e, h, w))
  tendency-Ensures e none w i = tt
  tendency-Ensures esp_ok (some t) w i = i.1
  tendency-Ensures _ (some t) w i = cc

  -- The handle of the sampling interval: 6 seconds, without an offset.
  pub record IsSampling (h : Tii.Handle) : Type 0 where
    pub valid : Lifecycle.IsValid h
    pub in_seconds : h.interval_type ≡ tii_sampling_cfg.interval_type
    pub period : h.interval_period ≡ 6
    pub offset : h.interval_offset ≡ 0
    pub begun : Pace.HasBegun os next_tm tii_sampling_cfg h

  tii-Ensures :
      (e : EspErr) (h : Option Tii.Handle) (w : W)
      → Lifecycle.Initialized tii_sampling_cfg none e h
      → Pace.BegunIfSome os next_tm tii_sampling_cfg h
      → Ensures IsSampling (ignoring_status (e, h, w))
  tii-Ensures e none w i b = tt
  tii-Ensures esp_ok (some h) w i b = record {
    valid = i.0;
    in_seconds = i.1;
    period = i.2;
    offset = i.3;
    begun = b;
  }
  tii-Ensures _ (some t) w i b = cc

  sample-Ensures :
      (p : Parameter) (w : W)
      → Ensures (λ (x : Sample F). IsOf p x) (start_sample fp os bus services next_tm p w)
  unfolding create_sample created_sample
  sample-Ensures p w = from (os.calloc w)
    where
      from :
          (got : Bool × W)
          → Ensures
              (λ (x : Sample F). IsOf p x)
              (or_restart (created_sample fp os mqtt_net_device_id p got))
      from (false, w') = tt
      from (true, w') = record { own_device = refl; own_parameter = refl }

  -- The objects after the set-up.
  samples-Identified : (w : W) → Ensures Identified (start_samples fp os bus services next_tm w)
  unfolding start_samples pure
  samples-Identified w = each Parameter.air_temperature _ w λ ta w₁ l₁.
      each Parameter.air_temperature_trend _ w₁ λ tatrd w₂ l₂.
        each Parameter.dewpoint_temperature _ w₂ λ td w₃ l₃.
          each Parameter.relative_humidity _ w₃ λ hr w₄ l₄.
            each Parameter.atmospheric_pressure _ w₄ λ pa w₅ l₅.
              each Parameter.atmospheric_pressure_trend _ w₅ λ patrd w₆ l₆.
                each Parameter.atmospheric_pressure_tendency _ w₆ λ patdc w₇ l₇.
                  each Parameter.atmospheric_pressure_change _ w₇ λ patdcv w₈ l₈.
                    store_of-Identified ta tatrd td hr pa patrd patdc patdcv l₁ l₂ l₃ l₄ l₅ l₆ l₇ l₈
    where
      each :
          (p : Parameter) (f : Sample F → Boot W (Store F)) (w : W)
          → ((x : Sample F) (w' : W) → IsOf p x → Ensures Identified (f x w'))
          → Ensures Identified ((start_sample fp os bus services next_tm p >>= f) w)
      each p f w rest =
          bind-Ensures (λ x. IsOf p x) Identified (start_sample fp os bus services next_tm p) f w
            (sample-Ensures p w) rest

      store_of-Identified :
          (ta tatrd td hr pa patrd patdc patdcv : Sample F)
          → IsOf Parameter.air_temperature ta
          → IsOf Parameter.air_temperature_trend tatrd
          → IsOf Parameter.dewpoint_temperature td
          → IsOf Parameter.relative_humidity hr
          → IsOf Parameter.atmospheric_pressure pa
          → IsOf Parameter.atmospheric_pressure_trend patrd
          → IsOf Parameter.atmospheric_pressure_tendency patdc
          → IsOf Parameter.atmospheric_pressure_change patdcv
          → Identified (store_of ta tatrd td hr pa patrd patdc patdcv)
      store_of-Identified a b c d e f g h l₁ l₂ l₃ l₄ l₅ l₆ l₇ l₈ Parameter.air_temperature = l₁
      store_of-Identified a b c d e f g h l₁ l₂ l₃ l₄ l₅ l₆ l₇ l₈ Parameter.air_temperature_trend =
          l₂
      store_of-Identified a b c d e f g h l₁ l₂ l₃ l₄ l₅ l₆ l₇ l₈ Parameter.dewpoint_temperature =
          l₃
      store_of-Identified a b c d e f g h l₁ l₂ l₃ l₄ l₅ l₆ l₇ l₈ Parameter.relative_humidity = l₄
      store_of-Identified a b c d e f g h l₁ l₂ l₃ l₄ l₅ l₆ l₇ l₈ Parameter.atmospheric_pressure =
          l₅
      store_of-Identified a b c d e f g h l₁ l₂ l₃ l₄ l₅ l₆ l₇ l₈
            Parameter.atmospheric_pressure_trend =
          l₆
      store_of-Identified a b c d e f g h l₁ l₂ l₃ l₄ l₅ l₆ l₇ l₈
            Parameter.atmospheric_pressure_tendency =
          l₇
      store_of-Identified a b c d e f g h l₁ l₂ l₃ l₄ l₅ l₆ l₇ l₈
            Parameter.atmospheric_pressure_change =
          l₈

  -- The state in which the loop is entered: the windows of the trends are fresh, for 600 samples,
  -- and that of the tendency, for 1800; every object is that of the device and of its parameter; the
  -- sampling interval is valid, of 6 seconds and without an offset, and its schedule has begun.
  pub record IsReady (t : Task F D) : Type 0 where
    pub fresh_ta : IsFresh fp.f_nan 600 t.ta_trend.window
    pub fresh_pa : IsFresh fp.f_nan 600 t.pa_trend.window
    pub fresh_tendency : IsFresh fp.f_nan 1800 t.pa_tendency
    pub identified : Identified t.samples
    pub sampling : IsSampling t.tii_sampling

  fresh_tii :
      (w : W) → Ensures IsSampling (start_tii fp os bus services next_tm tii_sampling_cfg none w)
  fresh_tii w =
      let r = time_into_interval_init os next_tm tii_sampling_cfg none w in
      tii-Ensures r.0 r.1 r.2
        (Lifecycle.time_into_interval_init-Initialized os next_tm tii_sampling_cfg none w
          (omega arith) (omega arith))
        (Pace.time_into_interval_init-HasBegun os next_tm tii_sampling_cfg w)

  fresh_trend :
      (w : W)
      → Ensures
          (λ (t : Trend F D). IsFresh fp.f_nan 600 t.window)
          (start_trend fp os bus services next_tm none w)
  fresh_trend w =
      let r = scalar_trend_init fp os trend_samples_size none w in
      trend-Ensures r.0 r.1 r.2
        (TrendHistory.scalar_trend_init-Initialized fp os trend_samples_size none (omega arith) w)

  fresh_change :
      (w : W) → Ensures (IsFresh fp.f_nan 1800) (start_tendency fp os bus services next_tm none w)
  fresh_change w =
      let r = pressure_tendency_init fp os tendency_samples_size none w in
      tendency-Ensures r.0 r.1 r.2 (
        TendencyHistory.pressure_tendency_init-Initialized fp os tendency_samples_size none
          (omega arith) w)

  -- If the variables of the task for the interval, the two trends and the tendency are null at
  -- first, then the set-up restarts the system, by `esp_restart` or an abort, or ends in a state that
  -- is ready: its interval is valid, of 6 seconds without an offset, and set to its first event; its
  -- trends are fresh for 600 samples and its tendency for 1800; and each sample object has the
  -- identifier of the device and its own parameter.
  pub set_up_task-Ensures :
      (v : Variables F D) (w : W)
      → v.tii_sampling_hdl ≡ none
      → v.ta_trend_hdl ≡ none
      → v.pa_trend_hdl ≡ none
      → v.pa_tendency_hdl ≡ none
      → Ensures IsReady (set_up_task fp os bus services next_tm v w)
  unfolding set_up_task pure
  set_up_task-Ensures v w tii ta pa tendency =
      bind-Ensures (λ _. ⊤) IsReady _ _ w (any _)
        λ _ w₁ _.
          bind-Ensures IsSampling IsReady _ _ w₁ (rw tii (fresh_tii w₁)) λ sampling w₂ is_sampling.
            bind-Ensures (λ _. ⊤) IsReady _ _ w₂ (any _)
              λ _ w₃ _.
                bind-Ensures (λ _. ⊤) IsReady _ _ w₃ (any _)
                  λ _ w₄ _.
                    bind-Ensures (λ _. ⊤) IsReady _ _ w₄ (any _)
                      λ bmp w₅ _.
                        bind-Ensures (λ _. ⊤) IsReady _ _ w₅ (any _)
                          λ aht w₆ _.
                            bind-Ensures (λ (t : Trend F D). IsFresh fp.f_nan 600 t.window) IsReady
                              _ _ w₆ (rw pa (fresh_trend w₆))
                              λ pa_trend w₇ fresh_pa.
                                bind-Ensures (IsFresh fp.f_nan 1800) IsReady _ _ w₇
                                  (rw tendency (fresh_change w₇))
                                  λ pa_tendency w₈ fresh_tendency.
                                    bind-Ensures (λ (t : Trend F D). IsFresh fp.f_nan 600 t.window)
                                      IsReady _ _ w₈ (rw ta (fresh_trend w₈))
                                      λ ta_trend w₉ fresh_ta.
                                        bind-Ensures Identified IsReady _ _ w₉
                                          (samples-Identified w₉)
                                          λ samples w₁₀ identified. record {
                                            fresh_ta = fresh_ta;
                                            fresh_pa = fresh_pa;
                                            fresh_tendency = fresh_tendency;
                                            identified = identified;
                                            sampling = is_sampling;
                                          }
