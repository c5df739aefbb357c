-- ===== src/Mqtt/Working.antt =====
-- An MQTT client whose services all succeed, for concrete runs.
use esp32_s3_i2c_mqtt_machba.Base.{false, none, some, List}
use esp32_s3_i2c_mqtt_machba.Esp.{esp_ok, idf}
use esp32_s3_i2c_mqtt_machba.Mqtt.{MqttEvent, no_bits, handle_all}
use esp32_s3_i2c_mqtt_machba.Mqtt.Link.{Client, Link}

-- The client's start is followed by these events.
abbrev pub client_after : {W : Type 0} → List MqttEvent → Client W
client_after es = record {
  x_event_group_create = λ w. (some 3, w);
  esp_mqtt_client_init = λ w. (some 4, w);
  esp_mqtt_client_register_event = λ c w. (esp_ok, w);
  esp_mqtt_client_start = λ c w. (esp_ok, w);
  x_event_group_wait_bits = λ g w. (handle_all es no_bits, w);
  esp_mqtt_client_disconnect = λ c w. (esp_ok, w);
  esp_mqtt_client_stop = λ c w. (esp_ok, w);
  esp_mqtt_client_unregister_event = λ c w. (esp_ok, w);
  esp_mqtt_client_destroy = λ c w. w;
  free_group = λ g w. w;
  mqtt_error_type_none = esp_ok;
  mqtt_error_type_connection_refused = idf 2;
}

abbrev pub new_link : Link
new_link = record { s_mqtt_evtgrp_hdl = none; mqtt_client_hdl = none; mqtt_connected = false }
