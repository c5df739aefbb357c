-- ===== src/I2c/Memory.antt =====
-- Words in the registers of a device that counts its register address up.
use esp32_s3_i2c_mqtt_machba.Base.{
  ℕ, zero, suc, ◌+◌, ◌*◌, ◌/◌, ◌%◌, ◌^◌, ◌≡◌, ◌==◌, refl, ap, ◌∙◌, List, [], ◌∷◌, arith,
  if◌then◌else◌,
}
use esp32_s3_i2c_mqtt_machba.Esp.{esp_ok}
use esp32_s3_i2c_mqtt_machba.I2c.{Bus}
use esp32_s3_i2c_mqtt_machba.I2c.Action.{Dev, ret, status, status_with, pure, ◌>>=◌, ◌>>◌}
use esp32_s3_i2c_mqtt_machba.I2c.Transfer.{
  i2c_master_bus_read_uint16, i2c_master_bus_read_uint32, i2c_master_bus_write_uint16,
}

-- A memory in which bytes are stored from an address on.
abbrev pub stored : ℕ → List ℕ → (ℕ → ℕ) → ℕ → ℕ
stored a [] m i = m i
stored a (b ∷ bytes) m i = if i == a then b else stored (suc a) bytes m i

-- So many bytes of a memory from an address on.
abbrev pub loaded : ℕ → ℕ → (ℕ → ℕ) → List ℕ
loaded a zero m = []
loaded a (suc n) m = m a ∷ loaded (suc a) n m

-- A working device whose registers are bytes: what is transmitted after a register address is stored
-- from that register on, and what is received is read from there on.
pub record MemoryLaws {W : Type 0} (bus : Bus W) (dev : ℕ) (memory : W → ℕ → ℕ) : Type 0 where
  pub transmitted :
      (a : ℕ) (bytes : List ℕ) (w : W) → (bus.i2c_master_transmit dev (a ∷ bytes) w).0 ≡ esp_ok
  pub written :
      (a : ℕ) (bytes : List ℕ) (w : W) (i : ℕ)
      → memory (bus.i2c_master_transmit dev (a ∷ bytes) w).1 i ≡ stored a bytes (memory w) i
  pub received : (a n : ℕ) (w : W) → (bus.i2c_master_transmit_receive dev (a ∷ []) n w).0 ≡ esp_ok
  pub read :
      (a n : ℕ) (w : W)
      → (bus.i2c_master_transmit_receive dev (a ∷ []) n w).1 ≡ loaded a n (memory w)

-- The word that `i2c_master_bus_read_uint16` makes of the memory, and that of a `uint32`.
abbrev word16 : (ℕ → ℕ) → ℕ → ℕ
word16 m a = m a + m (suc a) * 2 ^ 8

abbrev word32 : (ℕ → ℕ) → ℕ → ℕ
word32 m a = m a + m (suc a) * 2 ^ 8 + m (suc (suc a)) * 2 ^ 16 + m (suc (suc (suc a))) * 2 ^ 24

word32-halves : (m : ℕ → ℕ) (a : ℕ) → word32 m a ≡ word16 m a + word16 m (a + 2) * 2 ^ 16
word32-halves m a = let e : a + 2 ≡ suc (suc a) = omega arith in rw e (omega arith)

module _ {H W : Type 0} (bus : Bus W) (dev : ℕ) (memory : W → ℕ → ℕ)
    (laws : MemoryLaws bus dev memory) where
  read_uint16-word :
      (a : ℕ) (s : Dev H W)
      → (i2c_master_bus_read_uint16 bus dev a s).0 ≡ ret (word16 (memory s.world) a)
  unfolding i2c_master_bus_read_uint16 status_with ◌>>=◌ pure
  read_uint16-word a s = rw (laws.received a 2 s.world, laws.read a 2 s.world) refl

  read_uint32-word :
      (a : ℕ) (s : Dev H W)
      → (i2c_master_bus_read_uint32 bus dev a s).0 ≡ ret (word32 (memory s.world) a)
  unfolding i2c_master_bus_read_uint32 status_with ◌>>=◌ pure
  read_uint32-word a s = rw (laws.received a 4 s.world, laws.read a 4 s.world) refl

  abbrev after_write : ℕ → ℕ → Dev H W → Dev H W
  after_write a n s = record s {
    world = (bus.i2c_master_transmit dev (a ∷ n % 2 ^ 8 ∷ n / 2 ^ 8 ∷ []) s.world).1;
  }

  write_uint16-after :
      (a n : ℕ) (s : Dev H W)
      → i2c_master_bus_write_uint16 bus dev a n s ≡ (ret tt, after_write a n s)
  unfolding i2c_master_bus_write_uint16 status
  write_uint16-after a n s = rw (laws.transmitted a (n % 2 ^ 8 ∷ n / 2 ^ 8 ∷ []) s.world) refl

  -- A write of a word, on the memory.
  word16-after_write : (a n : ℕ) (s : Dev H W) → word16 (memory (after_write a n s).world) a ≡ n
  word16-after_write a n s =
      let bytes = n % 2 ^ 8 ∷ n / 2 ^ 8 ∷ [] in
      rw (laws.written a bytes s.world a, laws.written a bytes s.world (suc a)) (ground arith)

  word16-after_other :
      (a n : ℕ) (s : Dev H W)
      → word16 (memory (after_write (a + 2) n s).world) a ≡ word16 (memory s.world) a
  word16-after_other a n s =
      let bytes = n % 2 ^ 8 ∷ n / 2 ^ 8 ∷ [] in
      rw (laws.written (a + 2) bytes s.world a, laws.written (a + 2) bytes s.world (suc a))
        (ground arith)

  -- A word of 32 bits written in two halves, the low one first, to two registers after one another
  -- of a working device: each half is read back as a word of 16 bits, and both as the word of 32
  -- bits.
  pub write_uint16-read_uint32 :
      (a n : ℕ) (s : Dev H W)
      → let r =
          (i2c_master_bus_write_uint16 {H = H} bus dev a (n % 2 ^ 16)
              >> i2c_master_bus_write_uint16 bus dev (a + 2) (n / 2 ^ 16))
            s in
        (r.0 ≡ ret tt)
        × ((i2c_master_bus_read_uint16 bus dev a r.1).0 ≡ ret (n % 2 ^ 16))
        × ((i2c_master_bus_read_uint16 bus dev (a + 2) r.1).0 ≡ ret (n / 2 ^ 16))
        × ((i2c_master_bus_read_uint32 bus dev a r.1).0 ≡ ret n)
  unfolding ◌>>=◌
  write_uint16-read_uint32 a n s =
      let low = n % 2 ^ 16 in
      let high = n / 2 ^ 16 in
      let s₁ = after_write a low s in
      let s₂ = after_write (a + 2) high s₁ in
      let m = memory s₂.world in
      let at_low : word16 m a ≡ low = word16-after_other a high s₁ ∙ word16-after_write a low s in
      let at_high : word16 m (a + 2) ≡ high = word16-after_write (a + 2) high s₁ in
      let whole : word32 m a ≡ n = omega (arith, word32-halves m a, at_low, at_high) in
      rw (write_uint16-after a low s, write_uint16-after (a + 2) high s₁)
        (
          refl,
          read_uint16-word a s₂ ∙ ap ret at_low,
          read_uint16-word (a + 2) s₂ ∙ ap ret at_high,
          read_uint32-word a s₂ ∙ ap ret whole,
        )
