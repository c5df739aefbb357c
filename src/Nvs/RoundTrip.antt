-- ===== src/Nvs/RoundTrip.antt =====
-- Writing a number and reading it again.
use esp32_s3_i2c_mqtt_machba.Base.{
  ℕ, suc, ◌≤◌, ◌<◌, ◌≡◌, ◌∙◌, refl, true, false, List, Option, some, length, ◌⊎◌, inl, inr,
  Bool-cases, ltb, ltb→lt, ltb_false→le, arith,
}
use esp32_s3_i2c_mqtt_machba.Base.Int.{pos, leb_ℤ}
use esp32_s3_i2c_mqtt_machba.Esp.{EspErr, esp_ok}
use esp32_s3_i2c_mqtt_machba.Nvs.{
  Nvs, Real, esp_fail, save, save_printed, write_real, nvs_write_float, nvs_write_double, read_into,
  nvs_read_float, read_real, nvs_read_double,
}

-- A number is printed with its terminating zero where there is room; else the buffer holds one byte
-- less than its size, and the result is the length that was needed.
pub record PrintLaws {F : Type 0} (real : Real F) (text : F → List ℕ) : Type 0 where
  pub fits :
      (size : ℕ) (x : F)
      → length (text x) < size
      → real.snprintf size x ≡ (pos (length (text x)), text x)
  pub too_long :
      (size : ℕ) (x : F)
      → 0 < size
      → size ≤ length (text x)
      → ((real.snprintf size x).0 ≡ pos (length (text x)))
        × (suc (length (real.snprintf size x).1) ≡ size)

-- A storage that works, and a heap with room: `stored` is what is kept under a key.
pub record StorageLaws {W : Type 0} (nvs : Nvs W) (stored : List ℕ → W → Option (List ℕ))
    : Type 0 where
  pub malloc_there : (n : ℕ) (w : W) → (nvs.malloc n w).0 ≡ true
  pub malloc_keeps : (n : ℕ) (key : List ℕ) (w : W) → stored key (nvs.malloc n w).1 ≡ stored key w
  pub free_keeps : (key : List ℕ) (w : W) → stored key (nvs.free w) ≡ stored key w
  pub open_keeps : (key : List ℕ) (w : W) → stored key (nvs.nvs_open w).2 ≡ stored key w
  pub close_keeps : (h : ℕ) (key : List ℕ) (w : W) → stored key (nvs.nvs_close h w) ≡ stored key w
  pub set : (h : ℕ) (key s : List ℕ) (w : W) → stored key (nvs.nvs_set_str h key s w).1 ≡ some s
  pub committed : (h : ℕ) (w : W) → (nvs.nvs_commit h w).0 ≡ esp_ok
  pub commit_keeps :
      (h : ℕ) (key : List ℕ) (w : W) → stored key (nvs.nvs_commit h w).1 ≡ stored key w
  pub sized :
      (h : ℕ) (key s : List ℕ) (w : W)
      → stored key w ≡ some s
      → ((nvs.nvs_get_str_size h key w).0 ≡ esp_ok)
        × ((nvs.nvs_get_str_size h key w).1 ≡ suc (length s))
        × (stored key (nvs.nvs_get_str_size h key w).2 ≡ some s)
  pub got :
      (h : ℕ) (key s : List ℕ) (w : W)
      → stored key w ≡ some s
      → ((nvs.nvs_get_str h key (suc (length s)) w).0 ≡ esp_ok)
        × ((nvs.nvs_get_str h key (suc (length s)) w).1 ≡ s)

module _ {W F : Type 0} (real : Real F) (text : F → List ℕ)
    (stored : List ℕ → W → Option (List ℕ)) where
  -- What a write with a buffer of a size and a read after it return, where the text fits and where
  -- it does not.
  abbrev pub Saved : ℕ → List ℕ → F → W → EspErr × W → EspErr × F → Type 0
  Saved size key x w (err, w1) (read, got) =
      ((length (text x) < size) × (err ≡ esp_ok) × (read ≡ esp_ok) × (got ≡ real.strto (text x)))
      ⊎ ((size ≤ length (text x)) × (err ≡ esp_fail) × (stored key w1 ≡ stored key w))

module _ {W F : Type 0} (nvs : Nvs W) (real : Real F) (text : F → List ℕ)
    (stored : List ℕ → W → Option (List ℕ)) (prints : PrintLaws real text)
    (laws : StorageLaws nvs stored) where
  save-stored :
      (key string : List ℕ) (w : W)
      → ((save nvs real key string w).0 ≡ esp_ok)
        × (stored key (save nvs real key string w).1 ≡ some string)
  unfolding save
  save-stored key string w =
      let (opened, h, w1) = nvs.nvs_open w in
      let w2 = (nvs.nvs_set_str h key string w1).1 in
      let w3 = (nvs.nvs_commit h w2).1 in
      (
        laws.committed h w2,
        laws.close_keeps h key w3 ∙ laws.commit_keeps h key w2 ∙ laws.set h key string w1,
      )

  write_real-stored :
      (size : ℕ) (key : List ℕ) (x : F) (w : W)
      → length (text x) < size
      → ((write_real nvs real size key x w).0 ≡ esp_ok)
        × (stored key (write_real nvs real size key x w).1 ≡ some (text x))
  unfolding write_real save_printed
  write_real-stored size key x w h =
      let w1 = (nvs.malloc size w).1 in
      let saved = save-stored key (text x) w1 in
      let nonneg : leb_ℤ (pos 0) (pos (length (text x))) ≡ true = ground arith in
      let room : leb_ℤ (pos (length (text x))) (pos (length (text x))) ≡ true = ground arith in
      rw (laws.malloc_there size w, prints.fits size x h, nonneg, room)
        (saved.0, laws.free_keeps key (save nvs real key (text x) w1).1 ∙ saved.1)

  read_real-strto :
      (key s : List ℕ) (out : F) (w : W)
      → stored key w ≡ some s
      → ((read_real nvs real key out w).0 ≡ esp_ok)
        × ((read_real nvs real key out w).1 ≡ real.strto s)
  unfolding read_real read_into
  read_real-strto key s out w e =
      let (opened, h, w1) = nvs.nvs_open w in
      let there = laws.open_keeps key w ∙ e in
      let (found, size, kept) = laws.sized h key s w1 there in
      let w2 = (nvs.nvs_get_str_size h key w1).2 in
      let w3 = (nvs.malloc (suc (length s)) w2).1 in
      let (ok, string) = laws.got h key s w3 (laws.malloc_keeps (suc (length s)) key w2 ∙ kept) in
      rw (found, size, laws.malloc_there (suc (length s)) w2, ok, string) (refl, refl)

  write_real-too_long :
      (size : ℕ) (key : List ℕ) (x : F) (w : W)
      → 0 < size
      → size ≤ length (text x)
      → ((write_real nvs real size key x w).0 ≡ esp_fail)
        × (stored key (write_real nvs real size key x w).1 ≡ stored key w)
  unfolding write_real save_printed
  write_real-too_long size key x w some_room h =
      let (result, short) = prints.too_long size x some_room h in
      let nonneg : leb_ℤ (pos 0) (pos (length (text x))) ≡ true = ground arith in
      let cut : leb_ℤ (pos (length (text x))) (pos (length (real.snprintf size x).1)) ≡ false =
        ground (arith, short) in
      let w1 = (nvs.malloc size w).1 in
      rw (laws.malloc_there size w, result, nonneg, cut)
        (refl, laws.free_keeps key w1 ∙ laws.malloc_keeps size key w)

  write_real-Saved :
      (size : ℕ) (key : List ℕ) (x out : F) (w : W)
      → 0 < size
      → let r = write_real nvs real size key x w in
        let got = read_real nvs real key out r.1 in
        Saved real text stored size key x w r (got.0, got.1)
  write_real-Saved size key x out w some_room = elim (Bool-cases (ltb (length (text x)) size)) [
    | inl fits ↦
        let room = ltb→lt (length (text x)) size fits in
        let (ok, kept) = write_real-stored size key x w room in
        let read = read_real-strto key (text x) out (write_real nvs real size key x w).1 kept in
        inl (room, ok, read.0, read.1)
    | inr over ↦
        let long = ltb_false→le (length (text x)) size over in
        let failed = write_real-too_long size key x w some_room long in
        inr (long, failed.0, failed.1)
  ]

  -- On a storage that works and a heap with room, a number whose text is shorter than 32 characters
  -- (64 for a double) is saved, and read again it is what the C library makes of that text; of a
  -- longer one nothing is saved, what was stored stays, and the write fails with ESP_FAIL.
  pub write-read :
      (key : List ℕ) (x out : F) (w : W)
      → let float = nvs_write_float nvs real key x w in
        let double = nvs_write_double nvs real key x w in
        let got_float = nvs_read_float nvs real key out float.1 in
        let got_double = nvs_read_double nvs real key out double.1 in
        Saved real text stored 32 key x w float (got_float.0, got_float.1)
        × Saved real text stored 64 key x w double (got_double.0, got_double.1)
  unfolding nvs_write_float nvs_write_double nvs_read_float nvs_read_double
  write-read key x out w =
      (write_real-Saved 32 key x out w (omega arith), write_real-Saved 64 key x out w (omega arith))
