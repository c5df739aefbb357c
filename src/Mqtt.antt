-- ===== src/Mqtt.antt =====
-- src/mqtt_connect.c: the event handler of the MQTT client.
pub mod Link
pub mod Outcomes
pub mod Working
mod Examples
use esp32_s3_i2c_mqtt_machba.Base.{Bool, true, false, not, ◌&&◌, ◌≡◌, refl, List, [], ◌∷◌}

-- The events that the handler tells apart. It reads the type of an error only to log it.
pub data MqttEvent : Type 0 where
  connected disconnected subscribed unsubscribed published data_received error other_event :
      MqttEvent

-- The bits of the event group.
pub record Bits : Type 0 where
  pub connected_bit : Bool
  pub disconnected_bit : Bool
  pub error_bit : Bool

-- `mqtt_event_handler`
unfoldable pub mqtt_event_handler : MqttEvent → Bits → Bits
mqtt_event_handler connected b = record b { connected_bit = true; disconnected_bit = false }
mqtt_event_handler disconnected b = record b { disconnected_bit = true; connected_bit = false }
mqtt_event_handler error b = record b { error_bit = true }
mqtt_event_handler _ b = b

-- The bits after events, the first one first, on those of a new group.
abbrev pub no_bits : Bits
no_bits = record { connected_bit = false; disconnected_bit = false; error_bit = false }

unfoldable pub handle_all : List MqttEvent → Bits → Bits
handle_all [] b = b
handle_all (e ∷ es) b = handle_all es (mqtt_event_handler e b)

-- The last of the events that says whether there is a link.
abbrev pub last_link : List MqttEvent → Bool → Bool
last_link [] linked = linked
last_link (connected ∷ es) linked = last_link es true
last_link (disconnected ∷ es) linked = last_link es false
last_link (_ ∷ es) linked = last_link es linked

abbrev pub any_link : List MqttEvent → Bool → Bool
any_link [] seen = seen
any_link (connected ∷ es) seen = any_link es true
any_link (disconnected ∷ es) seen = any_link es true
any_link (_ ∷ es) seen = any_link es seen

abbrev pub any_error : List MqttEvent → Bool → Bool
any_error [] seen = seen
any_error (error ∷ es) seen = any_error es true
any_error (_ ∷ es) seen = any_error es seen

-- Bits that say that there was no event on the link, or which one was the last.
abbrev bits_of : (seen linked erred : Bool) → Bits
bits_of seen linked erred = record {
  connected_bit = seen && linked;
  disconnected_bit = seen && not linked;
  error_bit = erred;
}

handle_all-bits_of :
    (es : List MqttEvent) (seen linked erred : Bool)
    → handle_all es (bits_of seen linked erred)
      ≡ bits_of (any_link es seen) (last_link es linked) (any_error es erred)
unfolding handle_all mqtt_event_handler
handle_all-bits_of [] seen linked erred = refl
handle_all-bits_of (connected ∷ es) seen linked erred = handle_all-bits_of es true true erred
handle_all-bits_of (disconnected ∷ es) seen linked erred = handle_all-bits_of es true false erred
handle_all-bits_of (error ∷ es) seen linked erred = handle_all-bits_of es seen linked true
handle_all-bits_of (subscribed ∷ es) seen linked erred = handle_all-bits_of es seen linked erred
handle_all-bits_of (unsubscribed ∷ es) seen linked erred = handle_all-bits_of es seen linked erred
handle_all-bits_of (published ∷ es) seen linked erred = handle_all-bits_of es seen linked erred
handle_all-bits_of (data_received ∷ es) seen linked erred = handle_all-bits_of es seen linked erred
handle_all-bits_of (other_event ∷ es) seen linked erred = handle_all-bits_of es seen linked erred

-- After any events on a new event group, the connected bit is set if the last event on the link was
-- a connection, the disconnected bit if it was a disconnection, and the error bit if there was an
-- error; so the first two are never set together.
pub handle_all-bits :
    (es : List MqttEvent)
    → let b = handle_all es no_bits in
      (b.connected_bit ≡ any_link es false && last_link es false)
      × (b.disconnected_bit ≡ any_link es false && not (last_link es false))
      × (b.error_bit ≡ any_error es false)
      × (b.connected_bit && b.disconnected_bit ≡ false)
handle_all-bits es =
    let e = handle_all-bits_of es false false false in
    rw e (refl, refl, refl, never_both (any_link es false) (last_link es false))
  where
    never_both : (a b : Bool) → (a && b) && (a && not b) ≡ false
    never_both true true = refl
    never_both true false = refl
    never_both false b = refl
