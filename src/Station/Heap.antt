-- ===== src/Station/Heap.antt =====
-- src/main.c: the report on free memory, in `heap_size_task`.
use esp32_s3_i2c_mqtt_machba.Base.{
  ℕ, zero, suc, Option, none, some, codes, ◌-◌, ◌^◌, ◌<◌, ◌≡◌, ◌∙◌, refl, ap, List, [], ◌∷◌, ◌==◌,
  ltb, if◌then◌else◌, arith,
}
use esp32_s3_i2c_mqtt_machba.Esp.{Os, Tm}
use esp32_s3_i2c_mqtt_machba.Interval.Normalize.{IntervalType}
use esp32_s3_i2c_mqtt_machba.Interval.Handle.{
  Config, Handle, time_into_interval_init, time_into_interval_delay,
}
use esp32_s3_i2c_mqtt_machba.Base.Int.{ℤ, pos, ltb_ℤ}
use esp32_s3_i2c_mqtt_machba.Base.Word.{sub32, signed32}

-- The size to start from, and the difference as an `int32_t`.
abbrev start_size : ℕ → ℕ → ℕ
start_size last free = if last == 0 then free else last

abbrev size_delta : ℕ → ℕ → ℤ
size_delta start free = signed32 (sub32 start free)

-- `print_free_heap_size` when this much memory is free: the size that it returns, and the consumed
-- bytes that it prints.
unfoldable pub print_free_heap_size : ℕ → ℕ → ℕ × ℤ
print_free_heap_size last free =
    let start = start_size last free in
    let delta = size_delta start free in
    if ltb_ℤ delta (pos 0) then (free, pos 0) else (start, delta)

-- The variable of `heap_size_task` after a run of its loop in which the free memory has these sizes.
unfoldable pub free_heap_size_last : List ℕ → ℕ → ℕ
free_heap_size_last [] last = last
free_heap_size_last (free ∷ sizes) last =
    free_heap_size_last sizes (print_free_heap_size last free).0

abbrev pub larger : ℕ → ℕ → ℕ
larger a b = if ltb a b then b else a

-- The largest of some sizes.
abbrev pub largest : List ℕ → ℕ → ℕ
largest [] n = n
largest (m ∷ ms) n = largest ms (larger n m)

abbrev pub AllBelow : ℕ → List ℕ → Type 0
AllBelow b [] = Unit
AllBelow b (n ∷ ns) = (n < b) × AllBelow b ns

larger_size :
    (last free : ℕ)
    → last < 2 ^ 31
    → free < 2 ^ 31
    → print_free_heap_size last free ≡ (larger last free, pos (larger last free - free))
unfolding print_free_heap_size
larger_size last free a b = ground arith

free_heap_size_last-largest :
    (sizes : List ℕ) (last : ℕ)
    → AllBelow (2 ^ 31) sizes
    → last < 2 ^ 31
    → (free_heap_size_last sizes last ≡ largest sizes last) × (largest sizes last < 2 ^ 31)
unfolding free_heap_size_last
free_heap_size_last-largest [] last all lt = (refl, lt)
free_heap_size_last-largest (free ∷ sizes) last all lt =
    rw (larger_size last free lt all.0)
      (free_heap_size_last-largest sizes (larger last free) all.1 (ground arith))

-- As long as no more than 2 ^ 31 - 1 bytes are free, each round of the task reports how far the free
-- memory is below the largest size that it has seen so far, this one included, and keeps that size.
pub print_free_heap_size-largest :
    (sizes : List ℕ) (free : ℕ)
    → AllBelow (2 ^ 31) sizes
    → free < 2 ^ 31
    → let most = larger (largest sizes 0) free in
      print_free_heap_size (free_heap_size_last sizes 0) free ≡ (most, pos (most - free))
print_free_heap_size-largest sizes free all lt =
    let (same, bound) = free_heap_size_last-largest sizes 0 all (omega arith) in
    rw same (larger_size (largest sizes 0) free bound lt)

-- The rounds of `heap_size_task`: its handle of the interval, its variable, and the world.
pub record Watch (W : Type 0) : Type 0 where
  pub tii_1min_hdl : Option Handle
  pub last_size : ℕ
  pub world : W

-- `tii_1min_cfg`
abbrev pub tii_1min_cfg : Config
tii_1min_cfg = record {
  name = codes "tii_1min";
  interval_type = IntervalType.sec;
  interval_period = 60;
  interval_offset = 10;
}

module _ {W : Type 0} (os : Os W) (next_tm : Tm) (esp_get_free_heap_size : W → ℕ × W) where
  -- `heap_size_task` up to its loop, when its variable for the handle holds `out`: a null handle
  -- restarts the system.
  unfoldable pub start_watch : Option Handle → W → Option (Watch W)
  start_watch out w =
      let (_, hdl, w') = time_into_interval_init os next_tm tii_1min_cfg out w in
      elim hdl [
        | none ↦ none
        | some h ↦ some (record { tii_1min_hdl = some h; last_size = 0; world = w' })
      ]

  -- A round: the wait, and then the free memory.
  abbrev waited : Watch W → Option Handle × W
  waited s =
      let (_, hdl, w) = time_into_interval_delay os next_tm s.tii_1min_hdl s.world in (hdl, w)

  abbrev free_size : Watch W → ℕ
  free_size s = (esp_get_free_heap_size (waited s).1).0

  unfoldable pub watch_round : Watch W → Watch W
  watch_round s =
      let (hdl, w) = waited s in
      let (free, w') = esp_get_free_heap_size w in
      record {
        tii_1min_hdl = hdl;
        last_size = (print_free_heap_size s.last_size free).0;
        world = w';
      }

  unfoldable pub watch_rounds : ℕ → Watch W → Watch W
  watch_rounds zero s = s
  watch_rounds (suc n) s = watch_rounds n (watch_round s)

  -- The sizes that the rounds read.
  abbrev pub sizes_read : ℕ → Watch W → List ℕ
  sizes_read zero s = []
  sizes_read (suc n) s = free_size s ∷ sizes_read n (watch_round s)

  watch_rounds-free_heap_size_last :
      (n : ℕ) (s : Watch W)
      → (watch_rounds n s).last_size ≡ free_heap_size_last (sizes_read n s) s.last_size
  unfolding watch_rounds free_heap_size_last watch_round
  watch_rounds-free_heap_size_last zero s = refl
  watch_rounds-free_heap_size_last (suc n) s = watch_rounds-free_heap_size_last n (watch_round s)

  -- As long as no more than 2 ^ 31 - 1 bytes are free, the variable of the task is, after any number
  -- of rounds, the largest size that they have read.
  pub watch_rounds-largest :
      (n : ℕ) (s : Watch W)
      → s.last_size ≡ 0
      → AllBelow (2 ^ 31) (sizes_read n s)
      → (watch_rounds n s).last_size ≡ largest (sizes_read n s) 0
  watch_rounds-largest n s new all =
      let (same, _) = free_heap_size_last-largest (sizes_read n s) 0 all (omega arith) in
      watch_rounds-free_heap_size_last n s ∙ ap (free_heap_size_last (sizes_read n s)) new ∙ same
