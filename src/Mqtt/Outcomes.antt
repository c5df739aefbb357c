-- ===== src/Mqtt/Outcomes.antt =====
-- What the start and the stop of the MQTT client return, and what they leave in the variables.
use esp32_s3_i2c_mqtt_machba.Base.{
  ℕ, false, not, ◌&&◌, none, some, ◌≡◌, refl, List, if◌then◌else◌, arith,
}
use esp32_s3_i2c_mqtt_machba.Esp.{EspErr, esp_ok, esp_err_not_supported}
use esp32_s3_i2c_mqtt_machba.Mqtt.{
  MqttEvent, no_bits, handle_all, any_link, last_link, any_error, handle_all-bits,
}
use esp32_s3_i2c_mqtt_machba.Mqtt.Link.{
  Client, Link, judge, wait_link, start_client, with_client, with_group, mqtt_start, cleaned_up,
  stopped, disconnected, mqtt_stop,
}

module _ {W : Type 0} (client : Client W) where
  -- The status of a start whose wait ends with these events handled.
  abbrev pub status_of : List MqttEvent → EspErr
  status_of es =
      if any_link es false && last_link es false
      then esp_ok
      else if any_link es false && not (last_link es false)
      then client.mqtt_error_type_connection_refused
      else if any_error es false
      then client.mqtt_error_type_none
      else esp_err_not_supported

  -- A start whose services all succeed, and whose wait ends with the bits of these events: there is
  -- a link afterwards if and only if the last event on the link was a connection. The status is
  -- ESP_OK then, "connection refused" after a disconnection, and after an error alone it is the
  -- number of "no error".
  pub mqtt_start-events :
      (es : List MqttEvent) (l : Link) (g c : ℕ) (w w₁ w₂ w₃ w₄ w₅ : W)
      → client.x_event_group_create w ≡ (some g, w₁)
      → client.esp_mqtt_client_init w₁ ≡ (some c, w₂)
      → client.esp_mqtt_client_register_event (some c) w₂ ≡ (esp_ok, w₃)
      → client.esp_mqtt_client_start (some c) w₃ ≡ (esp_ok, w₄)
      → client.x_event_group_wait_bits (some g) w₄ ≡ (handle_all es no_bits, w₅)
      → mqtt_start client l w ≡ (
        status_of es,
        record {
          s_mqtt_evtgrp_hdl = some g;
          mqtt_client_hdl = some c;
          mqtt_connected = any_link es false && last_link es false;
        },
        w₅,
      )
  unfolding mqtt_start with_group with_client start_client wait_link judge
  mqtt_start-events es l g c w w₁ w₂ w₃ w₄ w₅ e₁ e₂ e₃ e₄ e₅ =
      let (linked, unlinked, erred, _) = handle_all-bits es in
      rw (e₁, e₂, e₃, e₄, e₅) (rw (linked, unlinked, erred) (ground arith))

  -- What a stop leaves: the variables of a client that has been taken down, or all of them as they
  -- were.
  abbrev pub Stopped : Link → EspErr → Link → Type 0
  Stopped l esp_ok l' =
      (l'.s_mqtt_evtgrp_hdl ≡ none)
      × (l'.mqtt_client_hdl ≡ none)
      × (l'.mqtt_connected ≡ l.mqtt_connected)
  Stopped l _ l' = l' ≡ l

  cleaned_up-Stopped :
      (l : Link) (e : EspErr) (w : W) → let r = cleaned_up client l (e, w) in Stopped l r.0 r.1
  unfolding cleaned_up
  cleaned_up-Stopped l esp_ok w = (refl, refl, refl)
  cleaned_up-Stopped l _ w = refl

  stopped-Stopped :
      (l : Link) (e : EspErr) (w : W) → let r = stopped client l (e, w) in Stopped l r.0 r.1
  unfolding stopped
  stopped-Stopped l esp_ok w =
      let r = client.esp_mqtt_client_unregister_event l.mqtt_client_hdl w in
      cleaned_up-Stopped l r.0 r.1
  stopped-Stopped l _ w = refl

  disconnected-Stopped :
      (l : Link) (e : EspErr) (w : W) → let r = disconnected client l (e, w) in Stopped l r.0 r.1
  unfolding disconnected
  disconnected-Stopped l esp_ok w =
      let r = client.esp_mqtt_client_stop l.mqtt_client_hdl w in stopped-Stopped l r.0 r.1
  disconnected-Stopped l _ w = refl

  -- A stop that returns ESP_OK has cleared both handles; one that returns an error leaves every
  -- variable as it was. Neither changes `mqtt_connected`.
  pub mqtt_stop-Stopped : (l : Link) (w : W) → let r = mqtt_stop client l w in Stopped l r.0 r.1
  unfolding mqtt_stop
  mqtt_stop-Stopped l w =
      let r = client.esp_mqtt_client_disconnect l.mqtt_client_hdl w in
      disconnected-Stopped l r.0 r.1
