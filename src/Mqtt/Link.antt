-- ===== src/Mqtt/Link.antt =====
-- src/mqtt_connect.c: the start and the stop of the MQTT client.
use esp32_s3_i2c_mqtt_machba.Base.{ℕ, Bool, true, false, Option, none, some, if◌then◌else◌}
use esp32_s3_i2c_mqtt_machba.Esp.{EspErr, esp_ok, esp_err_invalid_state, esp_err_not_supported}
use esp32_s3_i2c_mqtt_machba.Mqtt.{Bits}

-- The services of the MQTT client and of its event group. Handles are numbers, null is `none`. The
-- last two are the numbers of `esp_mqtt_error_type_t`, as an `esp_err_t`.
pub record Client (W : Type 0) : Type 0 where
  pub x_event_group_create : W → Option ℕ × W
  pub esp_mqtt_client_init : W → Option ℕ × W
  pub esp_mqtt_client_register_event : Option ℕ → W → EspErr × W
  pub esp_mqtt_client_start : Option ℕ → W → EspErr × W
  pub x_event_group_wait_bits : Option ℕ → W → Bits × W
  pub esp_mqtt_client_disconnect : Option ℕ → W → EspErr × W
  pub esp_mqtt_client_stop : Option ℕ → W → EspErr × W
  pub esp_mqtt_client_unregister_event : Option ℕ → W → EspErr × W
  pub esp_mqtt_client_destroy : Option ℕ → W → W
  pub free_group : Option ℕ → W → W
  pub mqtt_error_type_none : EspErr
  pub mqtt_error_type_connection_refused : EspErr

-- The variables of the module.
pub record Link : Type 0 where
  pub s_mqtt_evtgrp_hdl : Option ℕ
  pub mqtt_client_hdl : Option ℕ
  pub mqtt_connected : Bool

module _ {W : Type 0} (client : Client W) where
  -- What the start makes of the bits that end its wait.
  unfoldable pub judge : Bits → Link → EspErr × Link
  judge b l =
      if b.connected_bit
      then (esp_ok, record l { mqtt_connected = true })
      else if b.disconnected_bit
      then (client.mqtt_error_type_connection_refused, record l { mqtt_connected = false })
      else if b.error_bit
      then (client.mqtt_error_type_none, record l { mqtt_connected = false })
      else (esp_err_not_supported, record l { mqtt_connected = false })

  -- The wait for the first event.
  unfoldable pub wait_link : Link → EspErr × W → EspErr × Link × W
  wait_link l (esp_ok, w) =
      let (b, w') = client.x_event_group_wait_bits l.s_mqtt_evtgrp_hdl w in
      let (e, l') = judge b l in (e, l', w')
  wait_link l (e, w) = (e, l, w)

  unfoldable pub start_client : Link → EspErr × W → EspErr × Link × W
  start_client l (esp_ok, w) = wait_link l (client.esp_mqtt_client_start l.mqtt_client_hdl w)
  start_client l (e, w) = (e, l, w)

  -- From the client on.
  unfoldable pub with_client : Link → Option ℕ × W → EspErr × Link × W
  with_client l (none, w) = (esp_err_invalid_state, record l { mqtt_client_hdl = none }, w)
  with_client l (some c, w) =
      start_client (record l { mqtt_client_hdl = some c })
        (client.esp_mqtt_client_register_event (some c) w)

  -- From the event group on.
  unfoldable pub with_group : Link → Option ℕ × W → EspErr × Link × W
  with_group l (none, w) = (esp_err_invalid_state, record l { s_mqtt_evtgrp_hdl = none }, w)
  with_group l (some g, w) =
      with_client (record l { s_mqtt_evtgrp_hdl = some g }) (client.esp_mqtt_client_init w)

  -- `mqtt_start`
  unfoldable pub mqtt_start : Link → W → EspErr × Link × W
  mqtt_start l w = with_group l (client.x_event_group_create w)

  -- The end of the stop: everything is given back.
  unfoldable pub cleaned_up : Link → EspErr × W → EspErr × Link × W
  cleaned_up l (esp_ok, w) = (
    esp_ok,
    record l { s_mqtt_evtgrp_hdl = none; mqtt_client_hdl = none },
    client.free_group l.s_mqtt_evtgrp_hdl (client.esp_mqtt_client_destroy l.mqtt_client_hdl w),
  )
  cleaned_up l (e, w) = (e, l, w)

  unfoldable pub stopped : Link → EspErr × W → EspErr × Link × W
  stopped l (esp_ok, w) = cleaned_up l (client.esp_mqtt_client_unregister_event l.mqtt_client_hdl w)
  stopped l (e, w) = (e, l, w)

  unfoldable pub disconnected : Link → EspErr × W → EspErr × Link × W
  disconnected l (esp_ok, w) = stopped l (client.esp_mqtt_client_stop l.mqtt_client_hdl w)
  disconnected l (e, w) = (e, l, w)

  -- `mqtt_stop`
  unfoldable pub mqtt_stop : Link → W → EspErr × Link × W
  mqtt_stop l w = disconnected l (client.esp_mqtt_client_disconnect l.mqtt_client_hdl w)
