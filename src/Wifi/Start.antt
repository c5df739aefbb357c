-- ===== src/Wifi/Start.antt =====
-- src/network_connect.c: the start and the stop of the Wi-Fi station.
use esp32_s3_i2c_mqtt_machba.Base.{ℕ, Bool, Option, none, some, if◌then◌else◌}
use esp32_s3_i2c_mqtt_machba.Esp.{EspErr, esp_ok, esp_err_invalid_state}
use esp32_s3_i2c_mqtt_machba.Wifi.{Wifi}

-- The services of the Wi-Fi station. Handles are numbers, null is `none`; a configuration is fixed
-- by the source. The last four are codes of ESP-IDF.
pub record Station (W : Type 0) : Type 0 where
  pub esp_event_loop_create_default : W → EspErr × W
  pub esp_netif_init : W → EspErr × W
  pub esp_netif_create_default_wifi_sta : W → Option ℕ × W
  pub x_event_group_create : W → Option ℕ × W
  pub esp_wifi_init : W → EspErr × W
  pub register_any_id : W → EspErr × W
  pub register_got_ip : W → EspErr × W
  pub esp_wifi_set_mode : W → EspErr × W
  pub esp_wifi_set_config : W → EspErr × W
  pub esp_wifi_set_storage : W → EspErr × W
  pub esp_wifi_start : W → EspErr × W
  pub x_event_group_wait_bits : Option ℕ → W → Wifi × W
  pub esp_wifi_stop : W → EspErr × W
  pub is_not_init : EspErr → Bool
  pub esp_wifi_deinit : W → EspErr × W
  pub esp_wifi_clear_default_wifi_driver_and_handlers : Option ℕ → W → EspErr × W
  pub esp_netif_destroy : Option ℕ → W → W
  pub free_group : Option ℕ → W → W
  pub esp_err_esp_netif_init_failed : EspErr
  pub esp_err_wifi_not_connect : EspErr
  pub esp_err_wifi_state : EspErr

-- The variables of the module.
pub record Net : Type 0 where
  pub s_sta_netif : Option ℕ
  pub s_wifi_evtgrp_hdl : Option ℕ

-- A call of the module: its status, its variables and the world.
abbrev pub Call : Type 0 → Type 0
Call W = Net × W → EspErr × Net × W

module _ {W : Type 0} where
  -- `ESP_RETURN_ON_ERROR`, and the rest of the call.
  unfoldable pub returned_or : Net → EspErr × W → Call W → EspErr × Net × W
  returned_or n (esp_ok, w) rest = rest (n, w)
  returned_or n (e, w) rest = (e, n, w)

  abbrev pub attempt : (W → EspErr × W) → Call W → Call W
  attempt f rest (n, w) = returned_or n (f w) rest

module _ {W : Type 0} (station : Station W) where
  -- What the start makes of the bits that end its wait.
  unfoldable pub judge : Wifi → EspErr
  judge b =
      if b.connected_bit
      then esp_ok
      else if b.disconnected_bit
      then station.esp_err_wifi_not_connect
      else station.esp_err_wifi_state

  unfoldable pub wait_link : Call W
  wait_link (n, w) =
      let (b, w') = station.x_event_group_wait_bits n.s_wifi_evtgrp_hdl w in (judge b, n, w')

  -- From the initialization of the driver on.
  unfoldable pub start_driver : Call W
  start_driver = attempt station.esp_wifi_init (
      attempt station.register_any_id (
        attempt station.register_got_ip (
          attempt station.esp_wifi_set_mode (
            attempt station.esp_wifi_set_config
              (attempt station.esp_wifi_set_storage (attempt station.esp_wifi_start wait_link))))))

  -- From the event group on.
  unfoldable pub with_group : Net → Option ℕ × W → EspErr × Net × W
  with_group n (none, w) = (esp_err_invalid_state, record n { s_wifi_evtgrp_hdl = none }, w)
  with_group n (some g, w) = start_driver (record n { s_wifi_evtgrp_hdl = some g }, w)

  -- From the network interface on.
  unfoldable pub with_netif : Net → Option ℕ × W → EspErr × Net × W
  with_netif n (none, w) =
      (station.esp_err_esp_netif_init_failed, record n { s_sta_netif = none }, w)
  with_netif n (some i, w) =
      with_group (record n { s_sta_netif = some i }) (station.x_event_group_create w)

  unfoldable pub create_netif : Call W
  create_netif (n, w) = with_netif n (station.esp_netif_create_default_wifi_sta w)

  -- `wifi_start`
  unfoldable pub wifi_start : Call W
  wifi_start =
      attempt station.esp_event_loop_create_default (attempt station.esp_netif_init create_netif)

  -- The end of the stop: everything is given back.
  unfoldable pub cleaned_up : Call W
  cleaned_up (n, w) = (
    esp_ok,
    record { s_sta_netif = none; s_wifi_evtgrp_hdl = none },
    station.free_group n.s_wifi_evtgrp_hdl (station.esp_netif_destroy n.s_sta_netif w),
  )

  unfoldable pub clear_driver : Call W
  clear_driver (n, w) =
      returned_or n (station.esp_wifi_clear_default_wifi_driver_and_handlers n.s_sta_netif w)
        cleaned_up

  unfoldable pub take_down : Call W
  take_down = attempt station.esp_wifi_deinit clear_driver

  -- `wifi_stop`
  unfoldable pub wifi_stop : Call W
  wifi_stop (n, w) =
      let (e, w') = station.esp_wifi_stop w in
      if station.is_not_init e then (esp_ok, n, w') else returned_or n (e, w') take_down
