-- ===== src/Wifi/Sntp.antt =====
-- src/network_connect.c: the wait for the time of day, with its retries.
use esp32_s3_i2c_mqtt_machba.Base.{
  ℕ, zero, suc, ◌+◌, ◌-◌, ◌/◌, ◌≤◌, ◌≡◌, ◌⊎◌, inl, inr, Bool-cases, Bool, true, false,
  if◌then◌else◌, arith,
}
use esp32_s3_i2c_mqtt_machba.Esp.{EspErr, esp_err_timeout, is_ok}

-- The services of `esp_netif_sntp`.
pub record Sntp (W : Type 0) : Type 0 where
  pub esp_netif_sntp_init : W → EspErr × W
  pub esp_netif_sntp_start : W → EspErr × W
  pub esp_netif_sntp_sync_wait : ℕ → W → EspErr × W
  pub esp_netif_sntp_deinit : W → W

-- `SNTP_TIME_SYNC_MAXIMUM_RETRY`
abbrev pub sntp_time_sync_maximum_retry : ℕ
sntp_time_sync_maximum_retry = 10

abbrev pub is_timeout : EspErr → Bool
is_timeout esp_err_timeout = true
is_timeout _ = false

module _ {W : Type 0} (sntp : Sntp W) (port_tick_period_ms : ℕ) where
  -- A wait of the loop.
  abbrev wait_once : W → EspErr × W
  wait_once w = sntp.esp_netif_sntp_sync_wait (2000 / port_tick_period_ms) w

  -- The loop, when `left` rounds are left after the one that starts: the counter goes from 1 to the
  -- maximum.
  unfoldable pub sync_wait : ℕ → W → EspErr × W
  sync_wait zero w = wait_once w
  sync_wait (suc left) w =
      let (e, w') = wait_once w in
      let rest = sync_wait left w' in if is_timeout e then rest else (e, w')

  -- `sntp_synch_time` once the services have started.
  unfoldable pub started : EspErr × W → EspErr × W
  started (e, w) =
      if is_ok e
      then (let (e', w') = sync_wait (sntp_time_sync_maximum_retry - 1) w in
          (e', sntp.esp_netif_sntp_deinit w'))
      else (e, w)

  -- `sntp_synch_time`
  unfoldable pub sntp_synch_time : W → EspErr × W
  sntp_synch_time w =
      let (e, w') = sntp.esp_netif_sntp_init w in
      if is_ok e then started (sntp.esp_netif_sntp_start w') else (e, w')

-- How the services treat the number of waits so far.
pub record WaitLaws {W : Type 0} (sntp : Sntp W) (waits : W → ℕ) : Type 0 where
  pub wait_counts : (t : ℕ) (w : W) → waits (sntp.esp_netif_sntp_sync_wait t w).1 ≡ waits w + 1

module _ {W : Type 0} (sntp : Sntp W) (period : ℕ) (waits : W → ℕ)
    (laws : WaitLaws sntp waits) where
  sync_wait-waits :
      (left : ℕ) (w : W)
      → let r = sync_wait sntp period left w in
        (waits r.1 ≤ waits w + left + 1)
        × ((is_timeout r.0 ≡ false) ⊎ (waits r.1 ≡ waits w + left + 1))
  unfolding sync_wait
  sync_wait-waits zero w =
      let once = laws.wait_counts (2000 / period) w in (omega arith, inr (omega arith))
  sync_wait-waits (suc left) w =
      let w' = (sntp.esp_netif_sntp_sync_wait (2000 / period) w).1 in
      let once = laws.wait_counts (2000 / period) w in
      let (bound, ended) = sync_wait-waits left w' in
      elim (Bool-cases (is_timeout (sntp.esp_netif_sntp_sync_wait (2000 / period) w).0)) [
        | inl again ↦
            rw again
              (omega arith, elim ended [ inl early ↦ inl early | inr all ↦ inr (omega arith) ])
        | inr early ↦ rw early (omega arith, inl early)
      ]

  -- The loop of the synchronization waits at most 10 times, and it ends with a timeout only after
  -- the tenth.
  pub sync_wait-at_most_10 :
      (w : W)
      → let r = sync_wait sntp period (sntp_time_sync_maximum_retry - 1) w in
        (waits r.1 ≤ waits w + 10) × ((is_timeout r.0 ≡ false) ⊎ (waits r.1 ≡ waits w + 10))
  sync_wait-at_most_10 w =
      let (bound, ended) = sync_wait-waits 9 w in
      (omega arith, elim ended [ inl early ↦ inl early | inr all ↦ inr (omega arith) ])
