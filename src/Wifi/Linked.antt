-- ===== src/Wifi/Linked.antt =====
-- A Wi-Fi station whose services all succeed, for concrete runs.
use esp32_s3_i2c_mqtt_machba.Base.{false, refl, some, inl}
use esp32_s3_i2c_mqtt_machba.Esp.{esp_ok, idf}
use esp32_s3_i2c_mqtt_machba.Wifi.{sta_got_ip, new_group, created, handled, wifi_event_handler}
use esp32_s3_i2c_mqtt_machba.Wifi.Start.{Station}
use esp32_s3_i2c_mqtt_machba.Wifi.Outcomes.{WaitLaws}

abbrev pub linked_station : {W : Type 0} → Station W
linked_station = record {
  esp_event_loop_create_default = λ w. (esp_ok, w);
  esp_netif_init = λ w. (esp_ok, w);
  esp_netif_create_default_wifi_sta = λ w. (some 1, w);
  x_event_group_create = λ w. (some 2, w);
  esp_wifi_init = λ w. (esp_ok, w);
  register_any_id = λ w. (esp_ok, w);
  register_got_ip = λ w. (esp_ok, w);
  esp_wifi_set_mode = λ w. (esp_ok, w);
  esp_wifi_set_config = λ w. (esp_ok, w);
  esp_wifi_set_storage = λ w. (esp_ok, w);
  esp_wifi_start = λ w. (esp_ok, w);
  x_event_group_wait_bits = λ g w. (wifi_event_handler sta_got_ip new_group, w);
  esp_wifi_stop = λ w. (esp_ok, w);
  is_not_init = λ e. false;
  esp_wifi_deinit = λ w. (esp_ok, w);
  esp_wifi_clear_default_wifi_driver_and_handlers = λ i w. (esp_ok, w);
  esp_netif_destroy = λ i w. w;
  free_group = λ g w. w;
  esp_err_esp_netif_init_failed = idf 20487;
  esp_err_wifi_not_connect = idf 12303;
  esp_err_wifi_state = idf 12292;
}

pub linked_station-WaitLaws : {W : Type 0} → WaitLaws (linked_station {W = W})
unfolding wifi_event_handler
linked_station-WaitLaws = record {
  netif_error = refl;
  not_connect_error = refl;
  state_error = refl;
  waited_for = λ g w. handled sta_got_ip new_group created;
  waited_until = λ g w. inl refl;
}
