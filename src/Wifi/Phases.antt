-- ===== src/Wifi/Phases.antt =====
-- The phases of a Wi-Fi connection.
use esp32_s3_i2c_mqtt_machba.Base.{
  ℕ, zero, suc, ◌+◌, ◌≤◌, ◌<◌, ◌≡◌, refl, true, false, leb, le→leb, leb→le, ltb, ltb→lt,
  ltb_false→le, Bool-cases, inl, inr, leb_false→lt, if◌then◌else◌, arith,
}
use esp32_s3_i2c_mqtt_machba.Wifi.{
  WifiEvent, sta_start, sta_disconnected, sta_got_ip, other_event, Wifi, wifi_event_handler,
  Reached, created, handled, disconnections,
}

-- A connection is being made, after `n` retries; is there; or has been given up.
pub data Phase : Wifi → Type 0 where
  connecting :
      (n c : ℕ)
      → n ≤ 11
      → Phase (record {
        connected_bit = false;
        disconnected_bit = false;
        retry_count = n;
        connects = c;
      })
  connected :
      (c : ℕ)
      → Phase
          (record { connected_bit = true; disconnected_bit = false; retry_count = 0; connects = c })
  given_up :
      (c : ℕ)
      → Phase (record {
        connected_bit = false;
        disconnected_bit = true;
        retry_count = 11;
        connects = c;
      })

handler-Phase : (e : WifiEvent) (s : Wifi) → Phase s → Phase (wifi_event_handler e s)
unfolding wifi_event_handler
handler-Phase sta_start s p = connecting 0 (s.connects + 1) (omega arith)
handler-Phase sta_got_ip s p = connected s.connects
handler-Phase other_event s p = p
handler-Phase sta_disconnected _ (connecting n c le) = elim (Bool-cases (leb n 10)) [
  | inl again ↦ let bound = leb→le n 10 again in rw again (connecting (n + 1) (c + 1) (omega arith))
  | inr enough ↦
      let bound = leb_false→lt n 10 enough in
      let last : n ≡ 11 = omega arith in rw enough (rw last (given_up c))
]
handler-Phase sta_disconnected _ (connected c) = connecting 1 (c + 1) (omega arith)
handler-Phase sta_disconnected _ (given_up c) = given_up c

-- Whatever events arrive in whatever order, the two bits and the counter are those of one of the
-- three phases: the bits are never both set, the counter is at most 11, it is 0 while the connected
-- bit is set and 11 while the other one is.
pub Reached-Phase : (s : Wifi) → Reached s → Phase s
Reached-Phase _ created = connecting 0 0 (omega arith)
Reached-Phase _ (handled e s r) = handler-Phase e s (Reached-Phase s r)

module _ (s : Wifi) where
  retrying :
      (n : ℕ)
      → n ≤ 11
      → disconnections n (wifi_event_handler sta_start s) ≡ record {
        connected_bit = false;
        disconnected_bit = false;
        retry_count = n;
        connects = s.connects + 1 + n;
      }
  unfolding wifi_event_handler
  retrying zero le = ground arith
  retrying (suc n) le =
      let first = retrying n (omega arith) in
      let again : leb n 10 ≡ true = le→leb n 10 (omega arith) in rw first (rw again (ground arith))

  giving_up :
      (n : ℕ)
      → 11 < n
      → disconnections n (wifi_event_handler sta_start s) ≡ record {
        connected_bit = false;
        disconnected_bit = true;
        retry_count = 11;
        connects = s.connects + 12;
      }
  unfolding wifi_event_handler
  giving_up zero lt = absurd (omega arith)
  giving_up (suc n) lt = elim (Bool-cases (ltb 11 n)) [
    | inl later ↦ rw (giving_up n (ltb→lt 11 n later)) refl
    | inr now ↦
        let last : n ≡ 11 = omega (arith, ltb_false→le 11 n now) in
        rw (retrying n (omega arith)) (rw last (ground arith))
  ]

  -- After a start, every one of the first 11 disconnections in a row is answered by another call of
  -- `esp_wifi_connect`, and from the twelfth on there are no more calls, so 12 of them in all, and
  -- the disconnected bit is set. The connected bit is clear throughout.
  pub disconnections_lem :
      (n : ℕ)
      → let r = disconnections n (wifi_event_handler sta_start s) in
        (r.connected_bit ≡ false)
        × (r.disconnected_bit ≡ ltb 11 n)
        × (r.connects ≡ s.connects + 1 + (if ltb 11 n then 11 else n))
  disconnections_lem n = elim (Bool-cases (ltb 11 n)) [
    | inl late ↦ rw (giving_up n (ltb→lt 11 n late), late) (refl, refl, omega arith)
    | inr early ↦ rw (retrying n (ltb_false→le 11 n early), early) (refl, refl, refl)
  ]
