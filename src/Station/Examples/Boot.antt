-- ===== src/Station/Examples/Boot.antt =====
-- The theorems on the start of the station at concrete inputs.
use esp32_s3_i2c_mqtt_machba.Base.{ℕ, ◌+◌, ◌^◌, ◌≡◌, refl, true, Option, none, some, [], ◌∷◌, arith}
use esp32_s3_i2c_mqtt_machba.Esp.{EspErr, esp_ok, idf, Os, Tm}
use esp32_s3_i2c_mqtt_machba.Interval.Handle.{time_into_interval_delay}
use esp32_s3_i2c_mqtt_machba.Bmp280.Board as Board
use esp32_s3_i2c_mqtt_machba.Bmp280.Board.{board_os, timed_bus}
use esp32_s3_i2c_mqtt_machba.Station.Heap.{Watch, AllBelow, watch_round, sizes_read}
use esp32_s3_i2c_mqtt_machba.Wifi.Sntp.{Sntp}
use esp32_s3_i2c_mqtt_machba.Wifi.Linked.{linked_station, linked_station-WaitLaws}
use esp32_s3_i2c_mqtt_machba.Wifi.Timezone.{Zone, sntp_start}
use esp32_s3_i2c_mqtt_machba.Mqtt.{connected}
use esp32_s3_i2c_mqtt_machba.Mqtt.Link.{mqtt_start}
use esp32_s3_i2c_mqtt_machba.Mqtt.Working.{client_after, new_link}
use esp32_s3_i2c_mqtt_machba.Station.Main.{Program, timezone, app_main}
use esp32_s3_i2c_mqtt_machba.Station.Started.{Started, app_main-Started}
use esp32_s3_i2c_mqtt_machba.Station.System.{SystemState, Nvs, init_system_state}
use esp32_s3_i2c_mqtt_machba.Interval.Event as IntervalEvent
use esp32_s3_i2c_mqtt_machba.Mqtt as MqttTop
use esp32_s3_i2c_mqtt_machba.Mqtt.Link as MqttLink
use esp32_s3_i2c_mqtt_machba.Station.Main as StationMain
use esp32_s3_i2c_mqtt_machba.Station.System as StationSystem
use esp32_s3_i2c_mqtt_machba.Wifi as WifiTop
use esp32_s3_i2c_mqtt_machba.Wifi.Sntp as WifiSntp
use esp32_s3_i2c_mqtt_machba.Wifi.Start as WifiStart
use esp32_s3_i2c_mqtt_machba.Wifi.Timezone as WifiTimezone

abbrev stale_tm : Tm
stale_tm = record {
  tm_sec = 0;
  tm_min = 0;
  tm_hour = 0;
  tm_mday = 1;
  tm_mon = 0;
  tm_year = 70;
  tm_isdst = 0;
}

abbrev new_watch : Watch Board.Board
new_watch = record { tii_1min_hdl = none; last_size = 0; world = Board.board }

abbrev free_memory : Board.Board → ℕ × Board.Board
free_memory b = (300000 + b.time, b)

sizes_small : AllBelow (2 ^ 31) (sizes_read board_os stale_tm free_memory 3 new_watch)
unfolding watch_round time_into_interval_delay
sizes_small = (omega arith, (omega arith, (omega arith, tt)))

-- A flash, and a world of nothing else.
abbrev flash_os : Os (Option SystemState)
flash_os = record {
  gettimeofday = λ w. (true, record { tv_sec = 1000; tv_usec = 0 }, w);
  localtime_r = λ t. stale_tm;
  mktime = λ tm. 0;
  calloc = λ w. (true, w);
  free = λ w. w;
  x_semaphore_create_mutex = λ w. (7, w);
  x_semaphore_take = λ _ w. w;
  x_semaphore_give = λ _ w. w;
  v_task_delay = λ _ w. w;
  port_tick_period_ms = 10;
}

abbrev read_flash : SystemState → Option SystemState → EspErr × SystemState × Option SystemState
read_flash s none = (idf 4354, s, none)
read_flash s (some old) = (esp_ok, old, some old)

abbrev flash_nvs : Nvs (Option SystemState)
flash_nvs = record {
  nvs_write_struct = λ k s w. (esp_ok, some s);
  nvs_read_struct = λ k s w. read_flash s w;
}

abbrev stored_by :
    Option SystemState → Option (SystemState × Option SystemState) → Option SystemState
stored_by d none = d
stored_by d (some (s, w)) = w

abbrev saved_by : SystemState → Option (SystemState × Option SystemState) → Option SystemState
saved_by d none = some d
saved_by d (some (s, w)) = some s

abbrev sntp : Sntp (Option SystemState)
sntp = record {
  esp_netif_sntp_init = λ w. (esp_ok, w);
  esp_netif_sntp_start = λ w. (esp_ok, w);
  esp_netif_sntp_sync_wait = λ t w. (esp_ok, w);
  esp_netif_sntp_deinit = λ w. w;
}

abbrev zone : Zone (Option SystemState)
zone = record {
  time = λ w. (1000, w);
  setenv_tz = λ v w. (true, w);
  tzset = λ w. w;
  esp_err_invalid_response = idf 264;
}

abbrev new_program : Program (Option SystemState)
new_program = record {
  net = record { s_sta_netif = none; s_wifi_evtgrp_hdl = none };
  link = new_link;
  s_system_state = none;
  world = none;
}

abbrev first_state : SystemState
first_state = record { reboot_counter = 1; reboot_timestamp = 1000; system_uptime = 1000 }

abbrev started_program : Program (Option SystemState)
started_program = record {
  net = record { s_sta_netif = some 1; s_wifi_evtgrp_hdl = some 2 };
  link = record { s_mqtt_evtgrp_hdl = some 3; mqtt_client_hdl = some 4; mqtt_connected = true };
  s_system_state = some first_state;
  world = some first_state;
}

starts :
    app_main flash_os flash_nvs linked_station sntp zone
      (client_after (connected ∷ []))
      (λ w. (esp_ok, w))
      (λ c w. w)
      new_program
    ≡ some started_program
unfolding app_main sntp_start mqtt_start StationMain.◌>=>◌ StationMain.start_services
    StationMain.start_nvs StationMain.start_wifi StationMain.start_time StationMain.start_state
    StationMain.start_mqtt StationMain.start_tasks WifiStart.wifi_start WifiStart.returned_or
    WifiStart.create_netif WifiStart.with_netif WifiStart.with_group WifiStart.start_driver
    WifiStart.wait_link WifiStart.judge WifiTop.wifi_event_handler WifiTimezone.with_time
    WifiSntp.sntp_synch_time WifiSntp.started WifiSntp.sync_wait IntervalEvent.get_epoch_timestamp
    MqttLink.with_group MqttLink.with_client MqttLink.start_client MqttLink.wait_link MqttLink.judge
    MqttTop.handle_all MqttTop.mqtt_event_handler StationSystem.init_system_state
    StationSystem.init_allocated StationSystem.updated
starts = refl

app_main-Started_example :
    Started flash_os flash_nvs linked_station sntp zone
      (client_after (connected ∷ []))
      (λ w. (esp_ok, w))
      (λ c w. w)
      new_program
      started_program
app_main-Started_example =
    app_main-Started flash_os flash_nvs linked_station sntp zone (client_after (connected ∷ []))
      (λ w. (esp_ok, w)) (λ c w. w) new_program started_program linked_station-WaitLaws starts
