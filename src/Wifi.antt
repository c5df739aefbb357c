-- ===== src/Wifi.antt =====
-- src/network_connect.c: the Wi-Fi event handler and the wait for the time of day.
pub mod Phases
pub mod Sntp
pub mod Start
pub mod Outcomes
pub mod Timezone
pub mod Linked
mod Examples
use esp32_s3_i2c_mqtt_machba.Base.{
  ℕ, zero, suc, ◌+◌, Bool, true, false, leb, if◌then◌else◌, List, [], ◌∷◌,
}

-- `WIFI_CONNECT_MAXIMUM_RETRY`
abbrev pub wifi_connect_maximum_retry : ℕ
wifi_connect_maximum_retry = 10

-- The events that the handler tells apart.
pub data WifiEvent : Type 0 where
  sta_start sta_disconnected sta_got_ip other_event : WifiEvent

-- The bits of the event group, the retry counter, and how often `esp_wifi_connect` has been called.
pub record Wifi : Type 0 where
  pub connected_bit : Bool
  pub disconnected_bit : Bool
  pub retry_count : ℕ
  pub connects : ℕ

-- `wifi_event_handler`
unfoldable pub wifi_event_handler : WifiEvent → Wifi → Wifi
wifi_event_handler sta_start s = record {
  connected_bit = false;
  disconnected_bit = false;
  retry_count = 0;
  connects = s.connects + 1;
}
wifi_event_handler sta_disconnected s =
    if leb s.retry_count wifi_connect_maximum_retry
    then record {
      connected_bit = false;
      disconnected_bit = false;
      retry_count = s.retry_count + 1;
      connects = s.connects + 1;
    }
    else record s { connected_bit = false; disconnected_bit = true }
wifi_event_handler sta_got_ip s = record s {
  connected_bit = true;
  disconnected_bit = false;
  retry_count = 0;
}
wifi_event_handler other_event s = s

abbrev pub new_group : Wifi
new_group = record {
  connected_bit = false;
  disconnected_bit = false;
  retry_count = 0;
  connects = 0;
}

-- The states that events lead to from that of a new event group.
pub data Reached : Wifi → Type 0 where
  created : Reached new_group
  handled : (e : WifiEvent) (s : Wifi) → Reached s → Reached (wifi_event_handler e s)

-- A run of `n` disconnections.
abbrev pub disconnections : ℕ → Wifi → Wifi
disconnections zero s = s
disconnections (suc n) s = wifi_event_handler sta_disconnected (disconnections n s)
