-- ===== src/Wifi/Timezone.antt =====
-- src/network_connect.c: the time of day and the time zone.
use esp32_s3_i2c_mqtt_machba.Base.{
  ℕ, Bool, true, false, Option, none, some, List, [], ◌∷◌, ◌≡◌, ◌∙◌, ◌⊎◌, inl, inr, refl, ltb,
  codes, if◌then◌else◌, Bool-cases, ltb_false→le, ◌≤◌,
}
use esp32_s3_i2c_mqtt_machba.Esp.{EspErr, esp_ok, is_ok, Os}
use esp32_s3_i2c_mqtt_machba.Wifi.Sntp.{Sntp, sntp_synch_time}

-- The C library's clock and environment; `setenv` says whether it returned 0. The code is one of
-- ESP-IDF.
pub record Zone (W : Type 0) : Type 0 where
  pub time : W → ℕ × W
  pub setenv_tz : List ℕ → W → Bool × W
  pub tzset : W → W
  pub esp_err_invalid_response : EspErr

-- The time zone that is set: UTC if none is given or the empty one.
abbrev pub zone_of : Option (List ℕ) → List ℕ
zone_of none = codes "GMT0"
zone_of (some []) = codes "GMT0"
zone_of (some (c ∷ cs)) = c ∷ cs

module _ {W : Type 0} (os : Os W) (sntp : Sntp W) (zone : Zone W) where
  set_zone : Bool × W → EspErr × W
  set_zone (true, w) = (esp_ok, zone.tzset w)
  set_zone (false, w) = (zone.esp_err_invalid_response, w)

  unfoldable pub with_time : Option (List ℕ) → EspErr × W → EspErr × W
  unfolding set_zone
  with_time timezone (esp_ok, w) = set_zone (zone.setenv_tz (zone_of timezone) w)
  with_time timezone (e, w) = (e, w)

  -- `sntp_start`
  unfoldable pub sntp_start : Option (List ℕ) → W → EspErr × W
  sntp_start timezone w =
      let (now, w') = zone.time w in
      if ltb (os.localtime_r now).tm_year 116
      then with_time timezone (sntp_synch_time sntp os.port_tick_period_ms w')
      else with_time timezone (esp_ok, w')

  -- What the services do to the variable TZ.
  pub record ZoneLaws (tz : W → List ℕ) : Type 0 where
    pub setenv_sets :
        (v : List ℕ) (w : W) → (zone.setenv_tz v w).0 ≡ true → tz (zone.setenv_tz v w).1 ≡ v
    pub tzset_keeps : (w : W) → tz (zone.tzset w) ≡ tz w
    pub response_error : is_ok zone.esp_err_invalid_response ≡ false

  module _ (tz : W → List ℕ) (laws : ZoneLaws tz) where
    set_zone-tz :
        (v : List ℕ) (got : Bool × W)
        → (got.0 ≡ true → tz got.1 ≡ v)
        → (is_ok (set_zone got).0 ≡ false) ⊎ (tz (set_zone got).1 ≡ v)
    unfolding set_zone
    set_zone-tz v (true, w) h = inr (laws.tzset_keeps w ∙ h refl)
    set_zone-tz v (false, w) h = inl laws.response_error

    with_time-tz :
        (timezone : Option (List ℕ)) (e : EspErr) (w : W)
        → let r = with_time timezone (e, w) in
          (is_ok r.0 ≡ false) ⊎ ((tz r.1 ≡ zone_of timezone) × (e ≡ esp_ok))
    unfolding with_time
    with_time-tz timezone esp_ok w =
        let v = zone_of timezone in
        elim (set_zone-tz v (zone.setenv_tz v w) (laws.setenv_sets v w)) [
          | inl failed ↦ inl failed
          | inr set ↦ inr (set, refl)
        ]
    with_time-tz timezone _ w = inl refl

    -- Whether the clock was set in 2016 or later, or has been synchronized.
    abbrev pub HasTime : W → Type 0
    HasTime w =
        (116 ≤ (os.localtime_r (zone.time w).0).tm_year)
        ⊎ ((sntp_synch_time sntp os.port_tick_period_ms (zone.time w).1).0 ≡ esp_ok)

    -- A start that does not return an error leaves the time zone that was asked for, or UTC where
    -- none was; and the clock showed 2016 or later, or the synchronization has succeeded.
    pub sntp_start-tz :
        (timezone : Option (List ℕ)) (w : W)
        → let r = sntp_start timezone w in
          (is_ok r.0 ≡ false) ⊎ ((tz r.1 ≡ zone_of timezone) × HasTime w)
    unfolding sntp_start
    sntp_start-tz timezone w =
        let year = (os.localtime_r (zone.time w).0).tm_year in
        let synched = sntp_synch_time sntp os.port_tick_period_ms (zone.time w).1 in
        elim (Bool-cases (ltb year 116)) [
          | inl early ↦ rw early (elim (with_time-tz timezone synched.0 synched.1) [
            | inl failed ↦ inl failed
            | inr done ↦ inr (done.0, inr done.1)
          ])
          | inr late ↦ rw late (elim (with_time-tz timezone esp_ok (zone.time w).1) [
            | inl failed ↦ inl failed
            | inr done ↦ inr (done.0, inl (ltb_false→le year 116 late))
          ])
        ]
