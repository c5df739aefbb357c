-- ===== src/Mqtt/Examples.antt =====
-- The theorems on the MQTT connection at concrete inputs.
use esp32_s3_i2c_mqtt_machba.Base.{ℕ, ◌≡◌, refl, false, ◌&&◌, some, List, [], ◌∷◌}
use esp32_s3_i2c_mqtt_machba.Esp.{esp_ok}
use esp32_s3_i2c_mqtt_machba.Mqtt.{MqttEvent, error, any_link, last_link}
use esp32_s3_i2c_mqtt_machba.Mqtt.Link.{mqtt_start, mqtt_stop}
use esp32_s3_i2c_mqtt_machba.Mqtt.Outcomes.{
  status_of, mqtt_start-events, Stopped, mqtt_stop-Stopped,
}
use esp32_s3_i2c_mqtt_machba.Mqtt.Working.{client_after, new_link}

abbrev only_error : List MqttEvent
only_error = error ∷ []

-- A client that reports an error is taken for one that has started.
mqtt_start-events_example : mqtt_start {W = ℕ} (client_after only_error) new_link 5 ≡ (
  status_of {W = ℕ} (client_after only_error) only_error,
  record {
    s_mqtt_evtgrp_hdl = some 3;
    mqtt_client_hdl = some 4;
    mqtt_connected = any_link only_error false && last_link only_error false;
  },
  5,
)
mqtt_start-events_example =
    mqtt_start-events (client_after only_error) only_error new_link 3 4 5 5 5 5 5 5 refl refl refl
      refl refl

error_is_ok : status_of {W = ℕ} (client_after only_error) only_error ≡ esp_ok
error_is_ok = refl

mqtt_stop-Stopped_example :
    let r = mqtt_stop {W = ℕ} (client_after []) new_link 5 in
    Stopped {W = ℕ} (client_after []) new_link r.0 r.1
mqtt_stop-Stopped_example = mqtt_stop-Stopped (client_after []) new_link 5
