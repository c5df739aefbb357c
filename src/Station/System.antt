-- ===== src/Station/System.antt =====
-- src/main.c: the record of the system that outlives a restart.
use esp32_s3_i2c_mqtt_machba.Base.{
  ℕ, zero, suc, ◌+◌, ◌≡◌, Bool, true, false, Option, none, some, List, codes, if◌then◌else◌,
}
use esp32_s3_i2c_mqtt_machba.Base.Word.{u16, sub64}
use esp32_s3_i2c_mqtt_machba.Esp.{EspErr, is_ok, Os}
use esp32_s3_i2c_mqtt_machba.Interval.Event.{get_epoch_timestamp}

-- `system_state_t`
pub record SystemState : Type 0 where
  pub reboot_counter : ℕ
  pub reboot_timestamp : ℕ
  pub system_uptime : ℕ

-- What `calloc` returns.
abbrev pub cleared_state : SystemState
cleared_state = record { reboot_counter = 0; reboot_timestamp = 0; system_uptime = 0 }

-- The calls of `nvs_ext` on a structure of this type: a read is given the structure that it
-- overwrites.
pub record Nvs (W : Type 0) : Type 0 where
  pub nvs_write_struct : List ℕ → SystemState → W → EspErr × W
  pub nvs_read_struct : List ℕ → SystemState → W → EspErr × SystemState × W

module _ {W : Type 0} (os : Os W) (nvs : Nvs W) where
  -- `nvs_write_system_state`
  abbrev pub nvs_write_system_state : SystemState → W → EspErr × W
  nvs_write_system_state s w = nvs.nvs_write_struct (codes "system_state") s w

  -- `nvs_read_system_state`
  abbrev pub nvs_read_system_state : SystemState → W → EspErr × SystemState × W
  nvs_read_system_state s w = nvs.nvs_read_struct (codes "system_state") s w

  -- The members that a boot sets. The clock is read twice.
  unfoldable pub updated : Bool → SystemState → W → SystemState × W
  updated found s w =
      let (now, w₁) = get_epoch_timestamp os w in
      let (now', w₂) = get_epoch_timestamp os w₁ in
      (
        record {
          reboot_counter = u16 (s.reboot_counter + 1);
          reboot_timestamp = now';
          system_uptime = if found then sub64 now s.reboot_timestamp else now;
        },
        w₂,
      )

  -- `init_system_state` from the allocation on; `none` is the write through a null pointer.
  unfoldable pub init_allocated : Bool × W → Option (SystemState × W)
  unfolding updated
  init_allocated (false, w) = none
  init_allocated (true, w) =
      let (e, s, w₁) = nvs_read_system_state cleared_state w in
      let (s', w₂) = updated (is_ok e) s w₁ in
      let (_, w₃) = nvs_write_system_state s' w₂ in some (s', w₃)

  -- `init_system_state`
  unfoldable pub init_system_state : W → Option (SystemState × W)
  init_system_state w = init_allocated (os.calloc w)

  abbrev pub boot_again : (W → W) → Option (SystemState × W) → Option (SystemState × W)
  boot_again reset none = none
  boot_again reset (some (s, w)) = init_system_state (reset w)

  -- The boot after `n` others, with a reset of the system between two of them.
  unfoldable pub boots : (W → W) → ℕ → W → Option (SystemState × W)
  boots reset zero w = init_system_state w
  boots reset (suc n) w = boot_again reset (boots reset n w)

-- What holds of the calls whether or not they succeed: a read that succeeds gives what is stored,
-- one that fails leaves the structure that it was given, and `calloc` does not touch the flash.
pub record NvsLaws {W : Type 0} (os : Os W) (nvs : Nvs W) (stored : W → Option SystemState)
    : Type 0 where
  pub read_ok :
      (k : List ℕ) (s : SystemState) (w : W)
      → is_ok (nvs.nvs_read_struct k s w).0 ≡ true
      → stored w ≡ some (nvs.nvs_read_struct k s w).1
  pub read_failed :
      (k : List ℕ) (s : SystemState) (w : W)
      → is_ok (nvs.nvs_read_struct k s w).0 ≡ false
      → (nvs.nvs_read_struct k s w).1 ≡ s
  pub calloc_keeps : (w : W) → stored (os.calloc w).1 ≡ stored w

-- What a boot from a world meets when nothing fails: there is memory, a record that is stored can be
-- read, and the record that the boot writes is stored.
pub record Works {W : Type 0} (os : Os W) (nvs : Nvs W) (stored : W → Option SystemState) (w : W)
    : Type 0 where
  pub memory : (os.calloc w).0 ≡ true
  pub reads :
      (old : SystemState)
      → stored w ≡ some old
      → is_ok (nvs_read_system_state os nvs cleared_state (os.calloc w).1).0 ≡ true
  pub writes :
      (s : SystemState) (w' : W) → init_system_state os nvs w ≡ some (s, w') → stored w' ≡ some s

-- Nothing fails in the boot that follows a boot, or in any of the `n + 1` boots from a world.
abbrev pub WorksAgain :
    {W : Type 0}
    → Os W
    → Nvs W
    → (W → Option SystemState)
    → (W → W)
    → Option (SystemState × W)
    → Type 0
WorksAgain os nvs stored reset none = Unit
WorksAgain os nvs stored reset (some (s, w)) = Works os nvs stored (reset w)

abbrev pub AllWork :
    {W : Type 0} → Os W → Nvs W → (W → Option SystemState) → (W → W) → ℕ → W → Type 0
AllWork os nvs stored reset zero w = Works os nvs stored w
AllWork os nvs stored reset (suc n) w =
    AllWork os nvs stored reset n w × WorksAgain os nvs stored reset (boots os nvs reset n w)
