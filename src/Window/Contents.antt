-- ===== src/Window/Contents.antt =====
-- A window holds the most recent samples in order: `push` on the array refines a bounded list.
use esp32_s3_i2c_mqtt_machba.Base.{
  ℕ, zero, suc, ◌+◌, ◌-◌, ◌^◌, ◌≤◌, ◌<◌, ◌≡◌, refl, ap, List, [], ◌∷◌, ◌++◌, get_or, set, take,
  drop, length, length-set, length-append, ltb, if◌then◌else◌, arith, true, false, inl, inr,
  Bool-cases, length-drop, length-take, ltb→lt, ltb_false→le,
}
use esp32_s3_i2c_mqtt_machba.Base.Word.{u16}
use esp32_s3_i2c_mqtt_machba.Window.{Window, shift, push}

-- The array has the size that the handle says, and the counter is within it.
pub record IsValid {F : Type 0} (w : Window F) : Type 0 where
  pub sized : length w.samples ≡ w.samples_size
  pub counted : w.samples_count ≤ w.samples_size
  pub nonempty : 0 < w.samples_size
  pub small : w.samples_size < 2 ^ 16

-- The samples that have been stored, oldest first.
abbrev pub contents : {F : Type 0} → Window F → List F
contents w = take w.samples_count w.samples

-- The abstract window: at most `size` samples, the oldest is dropped for a new one.
unfoldable pub slide : {F : Type 0} → ℕ → F → List F → List F
slide size x q = (if ltb (length q) size then q else drop 1 q) ++ x ∷ []

-- The last `size` samples of a history.
abbrev pub recent : {F : Type 0} → ℕ → List F → List F
recent size hist = drop (length hist - size) hist

module _ {F : Type 0} where
  pub take-all : (n : ℕ) (xs : List F) → length xs ≡ n → take n xs ≡ xs
  take-all zero [] e = refl
  take-all zero (x ∷ xs) e = absurd (omega arith)
  take-all (suc n) [] e = refl
  take-all (suc n) (x ∷ xs) e = ap (λ t. x ∷ t) (take-all n xs (omega arith))

  take-set :
      (n : ℕ) (x : F) (xs : List F)
      → n < length xs
      → take (suc n) (set xs n x) ≡ take n xs ++ x ∷ []
  take-set n x [] h = elim h [ ]
  take-set zero x (y ∷ xs) h = refl
  take-set (suc n) x (y ∷ xs) h = ap (λ t. y ∷ t) (take-set n x xs (omega arith))

  drop-append : (n : ℕ) (xs ys : List F) → n ≤ length xs → drop n (xs ++ ys) ≡ drop n xs ++ ys
  drop-append zero xs ys h = refl
  drop-append (suc n) [] ys h = elim h [ ]
  drop-append (suc n) (x ∷ xs) ys h = drop-append n xs ys (omega arith)

  drop-drop : (n : ℕ) (xs : List F) → drop 1 (drop n xs) ≡ drop (suc n) xs
  drop-drop zero xs = refl
  drop-drop (suc n) [] = refl
  drop-drop (suc n) (x ∷ xs) = drop-drop n xs

  pub slide-recent :
      (size : ℕ) (x : F) (hist : List F)
      → 0 < size
      → slide size x (recent size hist) ≡ recent size (hist ++ x ∷ [])
  unfolding slide
  slide-recent size x hist pos = elim (Bool-cases (ltb (length (recent size hist)) size)) [
    | inl few ↦
        let lt = ltb→lt (length (recent size hist)) size few in
        let n = length-drop (length hist - size) hist in
        let m = length-append hist (x ∷ []) in
        let before : length hist - size ≡ 0 = omega arith in
        let after : length (hist ++ x ∷ []) - size ≡ 0 = omega arith in rw few (rw (before, after))
    | inr full ↦
        let le = ltb_false→le (length (recent size hist)) size full in
        let n = length-drop (length hist - size) hist in
        let m = length-append hist (x ∷ []) in
        let k : ℕ = length hist - size in
        let after : length (hist ++ x ∷ []) - size ≡ suc k = omega arith in
        rw full (
          rw (after, drop-append (suc k) hist (x ∷ []) (omega arith))
            (ap (λ t. t ++ x ∷ []) (drop-drop k hist)))
  ]

module _ {F : Type 0} (d : F) where
  shift-cons :
      (n i : ℕ) (y : F) (xs : List F) → shift d n (suc (suc i)) (y ∷ xs) ≡ y ∷ shift d n (suc i) xs
  unfolding shift
  shift-cons zero i y xs = refl
  shift-cons (suc n) i y xs =
      let outer : suc (suc i) - 1 ≡ suc i = omega arith in
      let inner : suc i - 1 ≡ i = omega arith in
      rw (outer, inner) (shift-cons n (suc i) y (set xs i (get_or xs (suc i) d)))

  -- Shifting and writing the last slot drops the first element and appends the new one.
  set-shift :
      (x y : F) (xs : List F) → set (shift d (length xs) 1 (y ∷ xs)) (length xs) x ≡ xs ++ x ∷ []
  unfolding shift
  set-shift x y [] = refl
  set-shift x y (z ∷ xs) =
      rw (shift-cons (length xs) zero z (z ∷ xs)) (ap (λ t. z ∷ t) (set-shift x z xs))

  set-shift-drop :
      (x : F) (size : ℕ) (xs : List F)
      → length xs ≡ size
      → 0 < size
      → set (shift d (size - 1) 1 xs) (size - 1) x ≡ drop 1 xs ++ x ∷ []
  set-shift-drop x size [] e pos = absurd (omega arith)
  set-shift-drop x size (y ∷ ys) e pos =
      let last : size - 1 ≡ length ys = omega arith in rw last (set-shift x y ys)

  push-full :
      (x : F) (w : Window F)
      → IsValid w
      → ltb w.samples_count w.samples_size ≡ false
      → push d x w ≡ record w { samples = drop 1 w.samples ++ x ∷ [] }
  unfolding push
  push-full x w v full = rw full (rw (set-shift-drop x w.samples_size w.samples v.sized v.nonempty))

  push-room :
      (x : F) (w : Window F)
      → IsValid w
      → ltb w.samples_count w.samples_size ≡ true
      → push d x w ≡ record w {
        samples = set w.samples w.samples_count x;
        samples_count = suc w.samples_count;
      }
  unfolding push
  push-room x w v room =
      let lt = ltb→lt w.samples_count w.samples_size room in
      let next : u16 (w.samples_count + 1) ≡ suc w.samples_count = omega (arith, v) in
      rw room (rw next)

  -- Storing a sample keeps the array within its bounds.
  pub push-IsValid : (x : F) (w : Window F) → IsValid w → IsValid (push d x w)
  push-IsValid x w v = elim (Bool-cases (ltb w.samples_count w.samples_size)) [
    | inl room ↦ rw (push-room x w v room) (
        omega (
          arith,
          length-set w.samples w.samples_count x,
          ltb→lt w.samples_count w.samples_size room,
        ))
    | inr full ↦
        rw (push-full x w v full)
          (omega (arith, length-append (drop 1 w.samples) (x ∷ []), length-drop 1 w.samples))
  ]

  -- Storing a sample slides the contents: it is appended, and the oldest is dropped if the array is
  -- full.
  pub push-contents :
      (x : F) (w : Window F)
      → IsValid w
      → contents (push d x w) ≡ slide w.samples_size x (contents w)
  unfolding slide
  push-contents x w v = elim (Bool-cases (ltb w.samples_count w.samples_size)) [
    | inl room ↦
        let lt = ltb→lt w.samples_count w.samples_size room in
        let len : length (contents w) ≡ w.samples_count =
          omega (arith, length-take w.samples_count w.samples) in
        rw (push-room x w v room)
          (rw (len, room) (take-set w.samples_count x w.samples (omega (arith, v))))
    | inr full ↦
        let le = ltb_false→le w.samples_count w.samples_size full in
        let new : length (drop 1 w.samples ++ x ∷ []) ≡ w.samples_count =
          omega (arith, length-append (drop 1 w.samples) (x ∷ []), length-drop 1 w.samples) in
        rw (push-full x w v full) (
          rw (take-all w.samples_count w.samples (omega (arith, v)))
            (rw (take-all w.samples_count (drop 1 w.samples ++ x ∷ []) new) (ground arith)))
  ]
