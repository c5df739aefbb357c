-- ===== src/Wifi/Examples.antt =====
-- The theorems on the Wi-Fi handler at concrete inputs.
use esp32_s3_i2c_mqtt_machba.Base.{
  ℕ, ◌+◌, ◌≡◌, ◌⊎◌, refl, false, ltb, if◌then◌else◌, List, [], true, some, none, codes,
}
use esp32_s3_i2c_mqtt_machba.Wifi.{
  new_group, sta_start, sta_disconnected, wifi_event_handler, created, handled, disconnections,
}
use esp32_s3_i2c_mqtt_machba.Esp.{esp_ok, esp_err_timeout, idf, is_ok, Os}
use esp32_s3_i2c_mqtt_machba.Wifi.Sntp.{Sntp, WaitLaws}
use esp32_s3_i2c_mqtt_machba.Wifi.Start.{Net, wifi_start}
use esp32_s3_i2c_mqtt_machba.Wifi.Outcomes.{Returns, IsLinked, wifi_start-Returns}
use esp32_s3_i2c_mqtt_machba.Wifi.Linked.{linked_station, linked_station-WaitLaws}
use esp32_s3_i2c_mqtt_machba.Wifi.Timezone.{
  Zone, ZoneLaws, zone_of, sntp_start, HasTime, sntp_start-tz,
}
use esp32_s3_i2c_mqtt_machba.Wifi.Phases.{Phase, Reached-Phase, disconnections_lem}

Reached-Phase_example :
    Phase (wifi_event_handler sta_disconnected (wifi_event_handler sta_start new_group))
Reached-Phase_example =
    Reached-Phase (wifi_event_handler sta_disconnected (wifi_event_handler sta_start new_group)) (
      handled sta_disconnected (wifi_event_handler sta_start new_group)
        (handled sta_start new_group created))

disconnections_lem_example :
    let r = disconnections 20 (wifi_event_handler sta_start new_group) in
    (r.connected_bit ≡ false)
    × (r.disconnected_bit ≡ ltb 11 20)
    × (r.connects ≡ 0 + 1 + (if ltb 11 20 then 11 else 20))
disconnections_lem_example = disconnections_lem new_group 20

-- A world that counts the waits, every one of which times out.
abbrev silent_sntp : Sntp ℕ
silent_sntp = record {
  esp_netif_sntp_init = λ n. (esp_ok, n);
  esp_netif_sntp_start = λ n. (esp_ok, n);
  esp_netif_sntp_sync_wait = λ t n. (esp_err_timeout, n + 1);
  esp_netif_sntp_deinit = λ n. n;
}

silent_sntp-WaitLaws : WaitLaws silent_sntp (λ n. n)
silent_sntp-WaitLaws = record { wait_counts = λ t n. refl }

abbrev no_net : Net
no_net = record { s_sta_netif = none; s_wifi_evtgrp_hdl = none }

wifi_start-Returns_example :
    Returns (IsLinked linked_station) (wifi_start {W = ℕ} linked_station (no_net, 5))
wifi_start-Returns_example = wifi_start-Returns linked_station linked_station-WaitLaws no_net 5

-- A world that keeps the variable TZ, on a clock that has not been set.
abbrev tz_os : Os (List ℕ)
tz_os = record {
  gettimeofday = λ w. (true, record { tv_sec = 0; tv_usec = 0 }, w);
  localtime_r = λ t. record {
    tm_sec = 0;
    tm_min = 0;
    tm_hour = 0;
    tm_mday = 1;
    tm_mon = 0;
    tm_year = 70;
    tm_isdst = 0;
  };
  mktime = λ tm. 0;
  calloc = λ w. (true, w);
  free = λ w. w;
  x_semaphore_create_mutex = λ w. (7, w);
  x_semaphore_take = λ _ w. w;
  x_semaphore_give = λ _ w. w;
  v_task_delay = λ _ w. w;
  port_tick_period_ms = 10;
}

abbrev tz_sntp : Sntp (List ℕ)
tz_sntp = record {
  esp_netif_sntp_init = λ w. (esp_ok, w);
  esp_netif_sntp_start = λ w. (esp_ok, w);
  esp_netif_sntp_sync_wait = λ t w. (esp_ok, w);
  esp_netif_sntp_deinit = λ w. w;
}

abbrev tz_zone : Zone (List ℕ)
tz_zone = record {
  time = λ w. (0, w);
  setenv_tz = λ v w. (true, v);
  tzset = λ w. w;
  esp_err_invalid_response = idf 264;
}

tz_zone-ZoneLaws : ZoneLaws tz_os tz_sntp tz_zone (λ w. w)
tz_zone-ZoneLaws = record {
  setenv_sets = λ v w e. refl;
  tzset_keeps = λ w. refl;
  response_error = refl;
}

sntp_start-tz_example :
    let r = sntp_start tz_os tz_sntp tz_zone (some (codes "AST4")) [] in
    (is_ok r.0 ≡ false)
    ⊎ ((r.1 ≡ zone_of (some (codes "AST4")))
        × HasTime tz_os tz_sntp tz_zone (λ w. w) tz_zone-ZoneLaws [])
sntp_start-tz_example =
    sntp_start-tz tz_os tz_sntp tz_zone (λ w. w) tz_zone-ZoneLaws (some (codes "AST4")) []
