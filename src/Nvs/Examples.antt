-- ===== src/Nvs/Examples.antt =====
-- The functions on a concrete storage, and the theorems on them.
use esp32_s3_i2c_mqtt_machba.Base.{
  ℕ, suc, ◌+◌, ◌-◌, ◌≡◌, refl, true, List, [], ◌∷◌, Option, none, some, length, take, length-take,
  format_u64, decimal, decimal_value, ltb, lt→ltb, le→ltb_false, if◌then◌else◌, arith,
}
use esp32_s3_i2c_mqtt_machba.Base.Int.{pos}
use esp32_s3_i2c_mqtt_machba.Esp.{EspErr, esp_ok, idf}
use esp32_s3_i2c_mqtt_machba.Nvs.{
  Nvs, Real, nvs_write_float, nvs_write_double, nvs_read_float, nvs_read_double,
}
use esp32_s3_i2c_mqtt_machba.Nvs.RoundTrip.{PrintLaws, StorageLaws, Saved, write-read}
use esp32_s3_i2c_mqtt_machba.Nvs.Leak.{NvsHeapLaws, blocks_left, live-write-read}

-- Numbers printed in decimals.
abbrev decimals : Real ℕ
decimals = record {
  snprintf = λ size n.
      let text = format_u64 n in
      (pos (length text), if ltb (length text) size then text else take (size - 1) text);
  strto = decimal_value 0;
}

-- A storage of one entry, whatever its key, and the number of blocks on the heap.
record Flash : Type 0 where
  entry : Option (List ℕ)
  blocks : ℕ

abbrev found : Option (List ℕ) → Flash → EspErr × List ℕ × Flash
found none w = (idf 4354, [], w)
found (some s) w = (esp_ok, s, w)

found-blocks : (entry : Option (List ℕ)) (w : Flash) → (found entry w).2.blocks ≡ w.blocks
found-blocks none w = refl
found-blocks (some s) w = refl

abbrev flash : Nvs Flash
flash = record {
  nvs_open = λ w. (esp_ok, 1, w);
  nvs_get_str_size = λ h key w. let (err, s, w1) = found w.entry w in (err, suc (length s), w1);
  nvs_get_str = λ h key n w. found w.entry w;
  nvs_set_str = λ h key s w. (esp_ok, record w { entry = some s });
  nvs_commit = λ h w. (esp_ok, w);
  nvs_close = λ h w. w;
  malloc = λ n w. (true, record w { blocks = suc w.blocks });
  free = λ w. record w { blocks = w.blocks - 1 };
}

decimals-PrintLaws : PrintLaws decimals format_u64
decimals-PrintLaws = record {
  fits = λ size n h. rw (lt→ltb (length (format_u64 n)) size h) refl;
  too_long = λ size n some_room h.
      let cut = le→ltb_false (length (format_u64 n)) size h in
      let short = length-take (size - 1) (format_u64 n) in (refl, rw cut (omega (arith, short)));
}

flash-StorageLaws : StorageLaws flash (λ key w. w.entry)
flash-StorageLaws = record {
  malloc_there = λ n w. refl;
  malloc_keeps = λ n key w. refl;
  free_keeps = λ key w. refl;
  open_keeps = λ key w. refl;
  close_keeps = λ h key w. refl;
  set = λ h key s w. refl;
  committed = λ h w. refl;
  commit_keeps = λ h key w. refl;
  sized = λ h key s w e. rw e (refl, refl, refl);
  got = λ h key s w e. rw e (refl, refl);
}

flash-NvsHeapLaws : NvsHeapLaws flash (λ w. w.blocks)
flash-NvsHeapLaws = record {
  malloc_some = λ n w e. refl;
  malloc_none = λ n w e. cc;
  free_one = λ w. refl;
  open_keeps = λ w. refl;
  size_keeps = λ h key w. found-blocks w.entry w;
  get_keeps = λ h key n w. found-blocks w.entry w;
  set_keeps = λ h key s w. refl;
  commit_keeps = λ h w. refl;
  close_keeps = λ h w. refl;
}

abbrev key : List ℕ
key = 107 ∷ []

abbrev empty : Flash
empty = record { entry = none; blocks = 3 }

-- 314 is kept as the text "314".
saved : (nvs_write_float flash decimals key 314 empty).1.entry ≡ some (51 ∷ 49 ∷ 52 ∷ [])
unfolding nvs_write_float decimal
saved = refl

write-read_example :
    let float = nvs_write_float flash decimals key 314 empty in
    let double = nvs_write_double flash decimals key 314 empty in
    let got_float = nvs_read_float flash decimals key 0 float.1 in
    let got_double = nvs_read_double flash decimals key 0 double.1 in
    Saved decimals format_u64 (λ k w. w.entry) 32 key 314 empty float (got_float.0, got_float.1)
    × Saved decimals format_u64
        (λ k w. w.entry)
        64
        key
        314
        empty
        double
        (got_double.0, got_double.1)
write-read_example =
    write-read flash decimals format_u64 (λ k w. w.entry) decimals-PrintLaws flash-StorageLaws key
      314 0 empty

live-write-read_example :
    let float = nvs_read_float flash decimals key 0 empty in
    let double = nvs_read_double flash decimals key 0 empty in
    ((nvs_write_float flash decimals key 314 empty).1.blocks ≡ 3)
    × ((nvs_write_double flash decimals key 314 empty).1.blocks ≡ 3)
    × (float.2.blocks ≡ 3 + blocks_left float.0)
    × (double.2.blocks ≡ 3 + blocks_left double.0)
live-write-read_example =
    live-write-read flash decimals (λ w. w.blocks) flash-NvsHeapLaws key 314 0 empty
