-- ===== src/I2c/Scan.antt =====
-- What a scan of the bus prints.
use esp32_s3_i2c_mqtt_machba.Base.{
  ℕ, zero, suc, ◌+◌, ◌*◌, ◌≡◌, ◌∙◌, refl, sym, ap, List, [], ◌∷◌, ◌++◌, length, concat, arith,
}
use esp32_s3_i2c_mqtt_machba.Esp.{EspErr, esp_ok}
use esp32_s3_i2c_mqtt_machba.I2c.{Bus}
use esp32_s3_i2c_mqtt_machba.I2c.Detect.{
  Cell, cell, detect_row, detect_rows, i2c_master_bus_detect_devices,
}

-- The cells of so many addresses from `a` on, on a bus that answers a probe like this.
abbrev pub cells : (ℕ → EspErr) → ℕ → ℕ → List Cell
cells answer zero a = []
cells answer (suc n) a = cell a (answer a) ∷ cells answer n (suc a)

abbrev pub AllLength : ℕ → List (List Cell) → Type 0
AllLength n [] = Unit {0}
AllLength n (row ∷ rows) = (length row ≡ n) × AllLength n rows

length-cells : (answer : ℕ → EspErr) (n a : ℕ) → length (cells answer n a) ≡ n
length-cells answer zero a = refl
length-cells answer (suc n) a = omega (arith, length-cells answer n (suc a))

cells-append :
    (answer : ℕ → EspErr) (m n a : ℕ)
    → cells answer m a ++ cells answer n (a + m) ≡ cells answer (m + n) a
cells-append answer zero n a =
    let e : a + 0 ≡ a = omega arith in let e' : 0 + n ≡ n = omega arith in rw (e, e') refl
cells-append answer (suc m) n a =
    let e : a + suc m ≡ suc a + m = omega arith in
    let e' : suc m + n ≡ suc (m + n) = omega arith in
    rw (e, e') (ap (λ rest. cell a (answer a) ∷ rest) (cells-append answer m n (suc a)))

-- The answers of the bus to its probes do not depend on what happens on it.
pub record Answers {W : Type 0} (bus : Bus W) (answer : ℕ → EspErr) : Type 0 where
  pub answered : (a : ℕ) (w : W) → (bus.i2c_master_probe a w).0 ≡ answer a

module _ {W : Type 0} (bus : Bus W) (answer : ℕ → EspErr) (laws : Answers bus answer) where
  detect_row-cells : (n i j : ℕ) (w : W) → (detect_row bus n i j w).0 ≡ cells answer n (i + j)
  unfolding detect_row
  detect_row-cells zero i j w = refl
  detect_row-cells (suc n) i j w =
      let rest = detect_row-cells n i (suc j) (bus.i2c_master_probe (i + j) w).1 in
      let next : i + suc j ≡ suc (i + j) = omega arith in
      rw (laws.answered (i + j) w, rest, next) refl

  detect_rows-cells :
      (n i : ℕ) (w : W)
      → let rows = (detect_rows bus n i w).0 in
        (concat rows ≡ cells answer (n * 16) i) × (length rows ≡ n) × AllLength 16 rows
  unfolding detect_rows
  detect_rows-cells zero i w = (refl, refl, tt)
  detect_rows-cells (suc n) i w =
      let r = detect_row bus 16 i 0 w in
      let row : r.0 ≡ cells answer 16 i =
        detect_row-cells 16 i 0 w ∙ ap (cells answer 16) (omega arith) in
      let (rest, count, widths) = detect_rows-cells n (i + 16) r.1 in
      let e : suc n * 16 ≡ 16 + n * 16 = omega arith in
      (
        ap (λ cells. cells ++ concat (detect_rows bus n (i + 16) r.1).0) row
            ∙ ap (λ later. cells answer 16 i ++ later) rest
            ∙ cells-append answer 16 (n * 16) i
            ∙ ap (λ count. cells answer count i) (sym e),
        omega (arith, count),
        (ap length row ∙ length-cells answer 16 i, widths),
      )

  -- The table that a scan prints has eight rows of sixteen cells, and read row by row they are those
  -- of the addresses 0 to 127, each with what the bus answers to its probe: the address of a device
  -- that is there, a mark for a timeout and another one for any other error. The scan always
  -- succeeds.
  pub detect_devices-cells :
      (w : W)
      → let r = i2c_master_bus_detect_devices bus w in
        (r.0 ≡ esp_ok) × (concat r.1 ≡ cells answer 128 0) × (length r.1 ≡ 8) × AllLength 16 r.1
  unfolding i2c_master_bus_detect_devices
  detect_devices-cells w =
      let (all, rows, widths) = detect_rows-cells 8 0 w in (refl, all, rows, widths)
