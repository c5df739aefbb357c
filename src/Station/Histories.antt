-- ===== src/Station/Histories.antt =====
-- The codes that the rounds of sampling report are those of all the readings so far.
use esp32_s3_i2c_mqtt_machba.Base.{⊤, ℕ, ◌≡◌, ◌∙◌, refl, ap, Option, some, List, [], ◌∷◌, ◌++◌}
use esp32_s3_i2c_mqtt_machba.Esp.{Os, esp_ok}
use esp32_s3_i2c_mqtt_machba.Float.{Fp}
use esp32_s3_i2c_mqtt_machba.Window.{Window, push}
use esp32_s3_i2c_mqtt_machba.Window.History.{push_all, IsFresh}
use esp32_s3_i2c_mqtt_machba.Trend.Fit.{TrendCode}
use esp32_s3_i2c_mqtt_machba.Trend.Handle.{Trend, scalar_trend_analysis}
use esp32_s3_i2c_mqtt_machba.Trend.History.{trend_of, after, scalar_trend_analysis-trend_of}
use esp32_s3_i2c_mqtt_machba.Tendency.{TendencyCode, pressure_tendency_analysis}
use esp32_s3_i2c_mqtt_machba.Tendency.History.{tendency_of, pressure_tendency_analysis-tendency_of}
use esp32_s3_i2c_mqtt_machba.I2c.{Bus}
use esp32_s3_i2c_mqtt_machba.I2c.Action.{Outcome, ret, fail, aborted, out_of_fuel}
use esp32_s3_i2c_mqtt_machba.Station.Sample.{air_temperature, atmospheric_pressure}
use esp32_s3_i2c_mqtt_machba.Station.Tasks.{Readings, hecto, or_nan}
use esp32_s3_i2c_mqtt_machba.Station.Rounds.{reading}
use esp32_s3_i2c_mqtt_machba.Station.Measure.{
  Sensors, trend_number, tendency_number, and_then, code_value, sense_ahtxx, sense_bmp280,
  analyse_temperature, analyse_pressure, settle_bus, readings, measure,
}

module _ {F D : Type 0} (fp : Fp F D) where
  push_all-append :
      (xs ys : List F) (w : Window F)
      → push_all fp.f_nan (xs ++ ys) w ≡ push_all fp.f_nan ys (push_all fp.f_nan xs w)
  push_all-append [] ys w = refl
  push_all-append (x ∷ xs) ys w = push_all-append xs ys (push fp.f_nan x w)

  trend_round :
      (size : ℕ) (t₀ : Trend F D) (xs : List F) (x : F) (out : TrendCode)
      → IsFresh fp.f_nan size t₀.window
      → scalar_trend_analysis fp (some (after fp xs t₀)) x out
        ≡ (esp_ok, some (after fp (xs ++ x ∷ []) t₀), trend_of fp t₀.critical_t size (xs ++ x ∷ []))
  unfolding scalar_trend_analysis
  trend_round size t₀ xs x out fresh =
      let (_, report, _, _) = scalar_trend_analysis-trend_of fp size t₀ xs x out fresh in
      let t' : Trend F D = after fp (x ∷ []) (after fp xs t₀) in
      rw (push_all-append xs (x ∷ []) t₀.window)
        (ap (λ c. (esp_ok, some t', c)) (ap (λ q. q.2) report))

  tendency_round :
      (size : ℕ) (w₀ : Window F) (xs : List F) (x : F) (out : TendencyCode × F)
      → IsFresh fp.f_nan size w₀
      → pressure_tendency_analysis fp (some (push_all fp.f_nan xs w₀)) x out
        ≡ (esp_ok, some (push_all fp.f_nan (xs ++ x ∷ []) w₀), tendency_of fp size (xs ++ x ∷ []))
  unfolding pressure_tendency_analysis
  tendency_round size w₀ xs x out fresh =
      let (_, report, _) = pressure_tendency_analysis-tendency_of fp size w₀ xs x out fresh in
      let w' : Window F = push_all fp.f_nan (x ∷ []) (push_all fp.f_nan xs w₀) in
      rw (push_all-append xs (x ∷ []) w₀) (ap (λ c. (esp_ok, some w', c)) (ap (λ q. q.2) report))

module _ {F D W : Type 0} (fp : Fp F D) (os : Os W) (bus : Bus W) where
  module _ (size long : ℕ) (ta₀ pa₀ : Trend F D) (w₀ : Window F)
      (fresh_ta : IsFresh fp.f_nan size ta₀.window) (fresh_pa : IsFresh fp.f_nan size pa₀.window)
      (fresh_tendency : IsFresh fp.f_nan long w₀) where
    -- The handles have analysed these temperatures and pressures.
    pub record Tracks (tas pas : List F) (n : Sensors F D W) : Type 0 where
      pub temperatures : n.ta_trend ≡ some (after fp tas ta₀)
      pub pressures : n.pa_trend ≡ some (after fp pas pa₀)
      pub tendencies : n.pa_tendency ≡ some (push_all fp.f_nan pas w₀)

    -- What the readings of a round say after these temperatures and pressures.
    pub record AreOf (tas pas : List F) (r : Readings F) : Type 0 where
      pub temperature_trend_of :
          r.temperature_trend
          ≡ code_value fp os bus (trend_number (trend_of fp ta₀.critical_t size tas))
      pub pressure_trend_of :
          r.pressure_trend
          ≡ code_value fp os bus (trend_number (trend_of fp pa₀.critical_t size pas))
      pub tendency_code_of :
          r.tendency ≡ code_value fp os bus (tendency_number (tendency_of fp long pas).0)
      pub change_of : r.change ≡ (tendency_of fp long pas).1

    -- A round that is not aborted extends both histories by what it reports, and reports the codes
    -- of the histories so extended.
    abbrev pub Extends : List F → List F → Outcome (Readings F) × Sensors F D W → Type 0
    Extends tas pas (ret r, n) =
        let tas' = tas ++ reading fp r air_temperature ∷ [] in
        let pas' = pas ++ reading fp r atmospheric_pressure ∷ [] in
        AreOf tas' pas' r × Tracks tas' pas' n
    Extends tas pas _ = ⊤

    -- The histories that a round so far has made.
    temperature-Tracks :
        (tas pas : List F) (x : F) (n : Sensors F D W)
        → Tracks tas pas n
        → let n' = analyse_temperature fp os bus x n in
          Tracks (tas ++ x ∷ []) pas n'
          × (n'.ta_trend_code ≡ trend_of fp ta₀.critical_t size (tas ++ x ∷ []))
    unfolding analyse_temperature
    temperature-Tracks tas pas x n h =
        let report = trend_round fp size ta₀ tas x n.ta_trend_code fresh_ta in
        rw (h.temperatures, report)
          (record { temperatures = refl; pressures = h.pressures; tendencies = h.tendencies }, refl)

    pressure-Tracks :
        (tas pas : List F) (x : F) (n : Sensors F D W)
        → Tracks tas pas n
        → let n' = analyse_pressure fp os bus x n in
          Tracks tas (pas ++ x ∷ []) n'
          × (n'.ta_trend_code ≡ n.ta_trend_code)
          × (n'.pa_trend_code ≡ trend_of fp pa₀.critical_t size (pas ++ x ∷ []))
          × (n'.pa_tendency_code ≡ (tendency_of fp long (pas ++ x ∷ [])).0)
          × (n'.pa_change ≡ (tendency_of fp long (pas ++ x ∷ [])).1)
    unfolding analyse_pressure
    pressure-Tracks tas pas x n h =
        let report = trend_round fp size pa₀ pas x n.pa_trend_code fresh_pa in
        let out : TendencyCode × F = (n.pa_tendency_code, n.pa_change) in
        let report' = tendency_round fp long w₀ pas x out fresh_tendency in
        let trend = ap (λ t. scalar_trend_analysis fp t x n.pa_trend_code) h.pressures ∙ report in
        let tendency = ap (λ w. pressure_tendency_analysis fp w x out) h.tendencies ∙ report' in
        (
          record {
            temperatures = h.temperatures;
            pressures = ap (λ q. q.1) trend;
            tendencies = ap (λ q. q.1) tendency;
          },
          refl,
          ap (λ q. q.2) trend,
          ap (λ q. q.2.0) tendency,
          ap (λ q. q.2.1) tendency,
        )

    -- A round of measurements on handles that have analysed any readings before: if it is not
    -- aborted, the trend and tendency codes and the change that it reports are those of the whole
    -- histories of the air temperature and of the pressure in hPa, its own readings included, with
    -- NAN for each one that could not be read; and the handles then hold these histories.
    pub measure-Extends :
        (fuel : ℕ) (tas pas : List F) (n : Sensors F D W)
        → Tracks tas pas n
        → Extends tas pas (measure fp os bus fuel n)
    unfolding measure sense_ahtxx sense_bmp280
    measure-Extends fuel tas pas n h =
        from_ahtxx (sense_ahtxx fp os bus n).0 (sense_ahtxx fp os bus n).1 (record {
          temperatures = h.temperatures;
          pressures = h.pressures;
          tendencies = h.tendencies;
        })
      where
        from_bmp280 :
            (m : Option (F × F × F)) (p : Outcome (Option F)) (n₂ : Sensors F D W)
            → let tas' = tas ++ or_nan fp (λ x. x.0) m ∷ [] in
              Tracks tas' pas n₂
              → n₂.ta_trend_code ≡ trend_of fp ta₀.critical_t size tas'
              → Extends tas pas (
                  and_then
                    (p, n₂)
                    λ p n.
                      let n' = analyse_pressure fp os bus (or_nan fp (hecto fp) p) n in
                      (ret (readings fp os bus m p n'), n'))
        from_bmp280 m (ret p) n₂ h code =
            let (tracks, same, trend, tendency, change) =
              pressure-Tracks (tas ++ or_nan fp (λ x. x.0) m ∷ []) pas (or_nan fp (hecto fp) p) n₂
                h in
            (
              record {
                temperature_trend_of =
                    ap (λ c. code_value fp os bus (trend_number c)) (same ∙ code);
                pressure_trend_of = ap (λ c. code_value fp os bus (trend_number c)) trend;
                tendency_code_of = ap (λ c. code_value fp os bus (tendency_number c)) tendency;
                change_of = change;
              },
              tracks,
            )
        from_bmp280 m (fail e) n₂ h code = tt
        from_bmp280 m (aborted e) n₂ h code = tt
        from_bmp280 m out_of_fuel n₂ h code = tt

        from_ahtxx :
            (m : Outcome (Option (F × F × F))) (n₁ : Sensors F D W)
            → Tracks tas pas n₁
            → Extends tas pas (
                and_then
                  (m, n₁)
                  λ m n.
                    let ta = or_nan fp (λ x. x.0) m in
                    and_then
                      (sense_bmp280 fp os bus fuel
                        (settle_bus fp os bus (analyse_temperature fp os bus ta n)))
                      λ p n.
                        let n' = analyse_pressure fp os bus (or_nan fp (hecto fp) p) n in
                        (ret (readings fp os bus m p n'), n'))
        from_ahtxx (ret m) n₁ h =
            let ta = or_nan fp (λ x. x.0) m in
            let (tracks, code) = temperature-Tracks tas pas ta n₁ h in
            let n' = settle_bus fp os bus (analyse_temperature fp os bus ta n₁) in
            from_bmp280 m (sense_bmp280 fp os bus fuel n').0 (sense_bmp280 fp os bus fuel n').1
              (record {
                temperatures = tracks.temperatures;
                pressures = tracks.pressures;
                tendencies = tracks.tendencies;
              })
              code
        from_ahtxx (fail e) n₁ h = tt
        from_ahtxx (aborted e) n₁ h = tt
        from_ahtxx out_of_fuel n₁ h = tt
