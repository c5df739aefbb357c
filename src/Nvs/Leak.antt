-- ===== src/Nvs/Leak.antt =====
-- The blocks of memory that the functions leave on the heap.
use esp32_s3_i2c_mqtt_machba.Base.{
  ℕ, suc, ◌+◌, ◌-◌, ◌≡◌, ◌∙◌, ap, true, false, List, length, inl, inr, Bool-cases, ◌&&◌,
  if◌then◌else◌, arith,
}
use esp32_s3_i2c_mqtt_machba.Base.Int.{pos, leb_ℤ}
use esp32_s3_i2c_mqtt_machba.Esp.{EspErr, is_ok}
use esp32_s3_i2c_mqtt_machba.Nvs.{
  Nvs, Real, save, save_printed, write_real, nvs_write_float, nvs_write_double, read_into,
  read_real, nvs_read_float, nvs_read_double,
}

-- `malloc` hands out a block where it succeeds, `free` takes one back, and the storage keeps to its
-- own memory.
pub record NvsHeapLaws {W : Type 0} (nvs : Nvs W) (live : W → ℕ) : Type 0 where
  pub malloc_some :
      (n : ℕ) (w : W) → (nvs.malloc n w).0 ≡ true → live (nvs.malloc n w).1 ≡ suc (live w)
  pub malloc_none : (n : ℕ) (w : W) → (nvs.malloc n w).0 ≡ false → live (nvs.malloc n w).1 ≡ live w
  pub free_one : (w : W) → live (nvs.free w) ≡ live w - 1
  pub open_keeps : (w : W) → live (nvs.nvs_open w).2 ≡ live w
  pub size_keeps : (h : ℕ) (key : List ℕ) (w : W) → live (nvs.nvs_get_str_size h key w).2 ≡ live w
  pub get_keeps :
      (h : ℕ) (key : List ℕ) (n : ℕ) (w : W) → live (nvs.nvs_get_str h key n w).2 ≡ live w
  pub set_keeps : (h : ℕ) (key s : List ℕ) (w : W) → live (nvs.nvs_set_str h key s w).1 ≡ live w
  pub commit_keeps : (h : ℕ) (w : W) → live (nvs.nvs_commit h w).1 ≡ live w
  pub close_keeps : (h : ℕ) (w : W) → live (nvs.nvs_close h w) ≡ live w

abbrev pub blocks_left : EspErr → ℕ
blocks_left e = if is_ok e then 1 else 0

module _ {W F : Type 0} (nvs : Nvs W) (real : Real F) (live : W → ℕ)
    (laws : NvsHeapLaws nvs live) where
  live-save : (key s : List ℕ) (w : W) → live (save nvs real key s w).1 ≡ live w
  unfolding save
  live-save key s w =
      let (opened, h, w1) = nvs.nvs_open w in
      let w2 = (nvs.nvs_set_str h key s w1).1 in
      let w3 = (nvs.nvs_commit h w2).1 in
      laws.close_keeps h w3 ∙ laws.commit_keeps h w2 ∙ laws.set_keeps h key s w1 ∙ laws.open_keeps w

  live-write_real :
      (size : ℕ) (key : List ℕ) (x : F) (w : W) → live (write_real nvs real size key x w).1 ≡ live w
  unfolding write_real save_printed
  live-write_real size key x w =
      let w1 = (nvs.malloc size w).1 in
      let (result, s) = real.snprintf size x in
      elim (Bool-cases (nvs.malloc size w).0) [
        | inr none ↦ rw none (laws.malloc_none size w none)
        | inl there ↦ elim (Bool-cases (leb_ℤ (pos 0) result && leb_ℤ result (pos (length s)))) [
          | inl fits ↦
              rw (there, fits)
                (omega (
                  arith,
                  laws.free_one (save nvs real key s w1).1,
                  live-save key s w1,
                  laws.malloc_some size w there,
                ))
          | inr cut ↦
              rw (there, cut) (omega (arith, laws.free_one w1, laws.malloc_some size w there))
        ]
      ]

  live-read_into :
      (h : ℕ) (key : List ℕ) (n m : ℕ) (out : F) (w : W)
      → live w ≡ suc m
      → let r = read_into nvs real h key n out w in live r.2 ≡ m + blocks_left r.0
  unfolding read_into
  live-read_into h key n m out w e =
      let w1 = (nvs.nvs_get_str h key n w).2 in
      let got = laws.get_keeps h key n w in
      elim (Bool-cases (is_ok (nvs.nvs_get_str h key n w).0)) [
        | inl ok ↦ rw (ok, ok) (omega (arith, laws.close_keeps h w1, got, e))
        | inr bad ↦
            rw (bad, bad)
              (omega (arith, laws.close_keeps h (nvs.free w1), laws.free_one w1, got, e))
      ]

  live-read_real :
      (key : List ℕ) (out : F) (w : W)
      → let r = read_real nvs real key out w in live r.2 ≡ live w + blocks_left r.0
  unfolding read_real
  live-read_real key out w =
      let (opened, h, w1) = nvs.nvs_open w in
      let (err, n, w2) = nvs.nvs_get_str_size h key w1 in
      let w3 = (nvs.malloc n w2).1 in
      let sized : live w2 ≡ live w = laws.size_keeps h key w1 ∙ laws.open_keeps w in
      elim (Bool-cases (is_ok err)) [
        | inr bad ↦ rw (bad, bad) (omega (arith, laws.close_keeps h w2, sized))
        | inl ok ↦ elim (Bool-cases (nvs.malloc n w2).0) [
          | inl there ↦
              rw (ok, there)
                (live-read_into h key n (live w) out w3
                  (laws.malloc_some n w2 there ∙ ap suc sized))
          | inr none ↦
              rw (ok, none)
                (omega (arith, laws.close_keeps h w3, laws.malloc_none n w2 none, sized))
        ]
      ]

  -- A write leaves no block behind, on any of its paths. A read leaves exactly one where it succeeds
  -- (the buffer of the string, which nothing frees) and none where it fails.
  pub live-write-read :
      (key : List ℕ) (x out : F) (w : W)
      → let float = nvs_read_float nvs real key out w in
        let double = nvs_read_double nvs real key out w in
        (live (nvs_write_float nvs real key x w).1 ≡ live w)
        × (live (nvs_write_double nvs real key x w).1 ≡ live w)
        × (live float.2 ≡ live w + blocks_left float.0)
        × (live double.2 ≡ live w + blocks_left double.0)
  unfolding nvs_write_float nvs_write_double nvs_read_float nvs_read_double
  live-write-read key x out w = (
    live-write_real 32 key x w,
    live-write_real 64 key x w,
    live-read_real key out w,
    live-read_real key out w,
  )
