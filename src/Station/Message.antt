-- ===== src/Station/Message.antt =====
-- src/main.c: the text of a message, in `publish_sensor_task`.
use esp32_s3_i2c_mqtt_machba.Base.{
  ℕ, ◌+◌, ◌-◌, ◌≤◌, ◌≡◌, List, [], ◌∷◌, length, concat, length-concat, length-decimal, take,
  take-whole, ap, arith, codes, format_u64,
}
use esp32_s3_i2c_mqtt_machba.Station.Sample.{
  Parameter, Sample, sample_parameter_to_string, mqtt_net_device_id,
}

-- `MQTT_PUB_MSG_BUFFER_SIZE`
abbrev pub mqtt_pub_msg_buffer_size : ℕ
mqtt_pub_msg_buffer_size = 200

module _ {F : Type 0} (format_f : F → List ℕ) where
  -- The parts of the format of the message on a sample, with `format_f` for `%f`.
  abbrev pub message_parts : Sample F → List (List ℕ)
  message_parts x =
      codes "[\""
      ∷ x.device_id
      ∷ codes "."
      ∷ sample_parameter_to_string x.parameter
      ∷ codes "\","
      ∷ format_u64 x.timestamp
      ∷ codes ","
      ∷ format_f x.value
      ∷ codes ",\""
      ∷ sample_parameter_to_string x.parameter
      ∷ codes "\",\""
      ∷ x.device_id
      ∷ codes "\"]"
      ∷ []

  unfoldable pub message_text : Sample F → List ℕ
  unfolding sample_parameter_to_string
  message_text x = concat (message_parts x)

  -- `snprintf` into the buffer: one character of it is the terminating zero.
  unfoldable pub message : Sample F → List ℕ
  unfolding message_text
  message x = take (mqtt_pub_msg_buffer_size - 1) (message_text x)

-- The texts of the parameters have 29 characters at most.
length-sample_parameter_to_string : (p : Parameter) → length (sample_parameter_to_string p) ≤ 29
unfolding sample_parameter_to_string
length-sample_parameter_to_string Parameter.air_temperature = omega arith
length-sample_parameter_to_string Parameter.air_temperature_trend = omega arith
length-sample_parameter_to_string Parameter.dewpoint_temperature = omega arith
length-sample_parameter_to_string Parameter.relative_humidity = omega arith
length-sample_parameter_to_string Parameter.atmospheric_pressure = omega arith
length-sample_parameter_to_string Parameter.atmospheric_pressure_tendency = omega arith
length-sample_parameter_to_string Parameter.atmospheric_pressure_change = omega arith
length-sample_parameter_to_string Parameter.atmospheric_pressure_trend = omega arith

module _ {F : Type 0} (format_f : F → List ℕ) where
  length-message_text :
      (x : Sample F)
      → length (message_text format_f x)
        ≡ 13
          + (length x.device_id + length x.device_id)
          + (length (sample_parameter_to_string x.parameter)
              + length (sample_parameter_to_string x.parameter))
          + length (format_u64 x.timestamp)
          + length (format_f x.value)
  unfolding message_text
  length-message_text x = omega (arith, length-concat (message_parts format_f x))

  -- If `%f` writes 47 characters at most, which is what the sign, 39 digits, the point and 6 digits of
  -- a `float` take, and the device is that of the program, then the message of any sample fits into
  -- its buffer of 200 characters: the text is 172 characters long at most and nothing is cut off.
  pub message-fits :
      (x : Sample F)
      → ((v : F) → length (format_f v) ≤ 47)
      → x.device_id ≡ mqtt_net_device_id
      → (message format_f x ≡ message_text format_f x) × (length (message_text format_f x) ≤ 172)
  unfolding message
  message-fits x narrow device =
      let long = length-message_text x in
      let same = ap length device in
      let bound : length (message_text format_f x) ≤ 172 = omega (
        arith,
        long,
        same,
        narrow x.value,
        length-decimal 19 x.timestamp,
        length-sample_parameter_to_string x.parameter,
      ) in
      (take-whole 199 (message_text format_f x) (omega arith), bound)
