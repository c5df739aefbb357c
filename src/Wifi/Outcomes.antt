-- ===== src/Wifi/Outcomes.antt =====
-- What the start and the stop of the Wi-Fi station return.
use esp32_s3_i2c_mqtt_machba.Base.{
  ℕ, true, false, Option, none, some, ◌≡◌, ◌⊎◌, inl, inr, refl, Bool-cases,
}
use esp32_s3_i2c_mqtt_machba.Esp.{EspErr, esp_ok, is_ok}
use esp32_s3_i2c_mqtt_machba.Wifi.{Wifi, Reached}
use esp32_s3_i2c_mqtt_machba.Wifi.Phases.{Phase, connecting, connected, given_up, Reached-Phase}
use esp32_s3_i2c_mqtt_machba.Wifi.Start.{
  Station, Net, Call, attempt, returned_or, judge, wait_link, start_driver, with_group, with_netif,
  create_netif, wifi_start, cleaned_up, clear_driver, take_down, wifi_stop,
}

module _ {W : Type 0} where
  -- What a call with this outcome says: an error, or this of the variables and of the world.
  abbrev pub Returns : (Net → W → Type 0) → EspErr × Net × W → Type 0
  Returns P (e, n, w) = (is_ok e ≡ false) ⊎ ((e ≡ esp_ok) × P n w)

  module _ (P : Net → W → Type 0) (n : Net) where
    returned_or-Returns :
        (e : EspErr) (w : W) (rest : Call W)
        → ((w' : W) → Returns P (rest (n, w')))
        → Returns P (returned_or n (e, w) rest)
    unfolding returned_or
    returned_or-Returns esp_ok w rest h = h w
    returned_or-Returns _ w rest h = inl refl

    attempt-Returns :
        (f : W → EspErr × W) (rest : Call W)
        → ((w : W) → Returns P (rest (n, w)))
        → (w : W) → Returns P (attempt f rest (n, w))
    attempt-Returns f rest h w = returned_or-Returns (f w).0 (f w).1 rest h

module _ {W : Type 0} (station : Station W) where
  -- The codes of ESP-IDF are errors, and the wait ends in a state of the event handler with one of
  -- the two bits set.
  pub record WaitLaws : Type 0 where
    pub netif_error : is_ok station.esp_err_esp_netif_init_failed ≡ false
    pub not_connect_error : is_ok station.esp_err_wifi_not_connect ≡ false
    pub state_error : is_ok station.esp_err_wifi_state ≡ false
    pub waited_for : (g : Option ℕ) (w : W) → Reached (station.x_event_group_wait_bits g w).0
    pub waited_until :
        (g : Option ℕ) (w : W)
        → let b = (station.x_event_group_wait_bits g w).0 in
          (b.connected_bit ≡ true) ⊎ (b.disconnected_bit ≡ true)

  -- Both handles are there, and the wait has ended in this world with a link.
  abbrev pub IsLinked : Net → W → Type 0
  IsLinked n w =
      (i g : ℕ) × (w₀ : W) × (n ≡ record { s_sta_netif = some i; s_wifi_evtgrp_hdl = some g })
      × ((station.x_event_group_wait_bits (some g) w₀).1 ≡ w)
      × ((station.x_event_group_wait_bits (some g) w₀).0.connected_bit ≡ true)
      × ((station.x_event_group_wait_bits (some g) w₀).0.retry_count ≡ 0)

  connected-retry_count : (b : Wifi) → Phase b → b.connected_bit ≡ true → b.retry_count ≡ 0
  connected-retry_count _ (connecting n c le) e = cc
  connected-retry_count _ (connected c) e = refl
  connected-retry_count _ (given_up c) e = cc

  module _ (laws : WaitLaws) where
    wait_link-Returns :
        (i g : ℕ) (w : W)
        → Returns IsLinked
            (wait_link station (record { s_sta_netif = some i; s_wifi_evtgrp_hdl = some g }, w))
    unfolding wait_link judge
    wait_link-Returns i g w =
        let b = (station.x_event_group_wait_bits (some g) w).0 in
        elim (Bool-cases b.connected_bit) [
          | inl on ↦
              let phase = Reached-Phase b (laws.waited_for (some g) w) in
              inr (rw on, (i, g, w, refl, refl, on, connected-retry_count b phase on))
          | inr off ↦ rw off (elim (laws.waited_until (some g) w) [
            | inl on ↦ absurd (cc (on, off))
            | inr gone ↦ rw gone (inl laws.not_connect_error)
          ])
        ]

    start_driver-Returns :
        (i g : ℕ) (w : W)
        → Returns IsLinked
            (start_driver station (record { s_sta_netif = some i; s_wifi_evtgrp_hdl = some g }, w))
    unfolding start_driver
    start_driver-Returns i g =
        let n : Net = record { s_sta_netif = some i; s_wifi_evtgrp_hdl = some g } in
        let after = attempt-Returns IsLinked n in
        after _ _ (
          after _ _
            (after _ _ (after _ _ (after _ _ (after _ _ (after _ _ (wait_link-Returns i g)))))))

    with_group-Returns :
        (i : ℕ) (n : Net) (g : Option ℕ) (w : W)
        → Returns IsLinked (with_group station (record n { s_sta_netif = some i }) (g, w))
    unfolding with_group
    with_group-Returns i n none w = inl refl
    with_group-Returns i n (some g) w = start_driver-Returns i g w

    with_netif-Returns :
        (n : Net) (i : Option ℕ) (w : W) → Returns IsLinked (with_netif station n (i, w))
    unfolding with_netif
    with_netif-Returns n none w = inl laws.netif_error
    with_netif-Returns n (some i) w =
        let r = station.x_event_group_create w in with_group-Returns i n r.0 r.1

    -- A start that returns ESP_OK has both handles, and its wait has ended with the connected bit set
    -- and the retry counter at 0; any other outcome is an error.
    pub wifi_start-Returns : (n : Net) (w : W) → Returns IsLinked (wifi_start station (n, w))
    unfolding wifi_start create_netif
    wifi_start-Returns n = attempt-Returns IsLinked n _ _ (
        attempt-Returns IsLinked n _ _ (λ w.
          let r = station.esp_netif_create_default_wifi_sta w in with_netif-Returns n r.0 r.1))

  -- What a stop leaves: no handles; or the handles as they were, if the driver was not there at all
  -- or if there was an error.
  abbrev pub StoppedOrKept : Net → EspErr × Net × W → Type 0
  StoppedOrKept n (e, n', w) =
      ((e ≡ esp_ok) × (n' ≡ record { s_sta_netif = none; s_wifi_evtgrp_hdl = none })) ⊎ (n' ≡ n)

  returned_or-StoppedOrKept :
      (n : Net) (e : EspErr) (w : W) (rest : Call W)
      → ((w' : W) → StoppedOrKept n (rest (n, w')))
      → StoppedOrKept n (returned_or n (e, w) rest)
  unfolding returned_or
  returned_or-StoppedOrKept n esp_ok w rest h = h w
  returned_or-StoppedOrKept n _ w rest h = inr refl

  -- A stop clears both handles and returns ESP_OK, or it leaves both as they were.
  pub wifi_stop-StoppedOrKept : (n : Net) (w : W) → StoppedOrKept n (wifi_stop station (n, w))
  unfolding wifi_stop take_down clear_driver cleaned_up
  wifi_stop-StoppedOrKept n w =
      let r = station.esp_wifi_stop w in
      elim (Bool-cases (station.is_not_init r.0)) [
        | inl absent ↦ rw absent (inr refl)
        | inr there ↦ rw there (
            returned_or-StoppedOrKept n r.0 r.1 _ λ w₁.
              returned_or-StoppedOrKept n _ _ _
                λ w₂. returned_or-StoppedOrKept n _ _ _ λ w₃. inl (refl, refl))
      ]
