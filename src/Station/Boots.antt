-- ===== src/Station/Boots.antt =====
-- The record of the system over any number of boots.
use esp32_s3_i2c_mqtt_machba.Base.{ℕ, ◌+◌, ◌≡◌, Option, none, some}
use esp32_s3_i2c_mqtt_machba.Base.Word.{u16}
use esp32_s3_i2c_mqtt_machba.Esp.{Os}
use esp32_s3_i2c_mqtt_machba.Station.System.{SystemState, Nvs, NvsLaws}

abbrev pub boots_of : Option SystemState → ℕ
boots_of none = 0
boots_of (some s) = s.reboot_counter

module _ {W : Type 0} (os : Os W) (nvs : Nvs W) (stored : W → Option SystemState)
    (laws : NvsLaws os nvs stored) where
  -- A boot that found this counter has ended with the next one.
  abbrev Counts : ℕ → Option (SystemState × W) → Type 0
  Counts before none = ⊥
  Counts before (some (s, w)) = s.reboot_counter ≡ u16 (before + 1)

  -- A boot has ended with this record, and has stored it.
  abbrev Ends : Option (SystemState × W) → ℕ → Type 0
  Ends r count =
      (s : SystemState) × (w' : W) × (r ≡ some (s, w'))
      × (stored w' ≡ some s)
      × (s.reboot_counter ≡ count)
