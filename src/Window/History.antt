-- ===== src/Window/History.antt =====
-- What a window holds after a run of samples: the most recent ones of the whole history.
use mathlib.Core.List.{append-nil, append_assoc}
use esp32_s3_i2c_mqtt_machba.Base.{
  ℕ, zero, suc, ◌^◌, ◌<◌, ◌≡◌, ◌∙◌, refl, ap, List, [], ◌∷◌, ◌++◌, set, length, length-set,
  length-replicate, take, drop, sym, ◌-◌, arith,
}
use esp32_s3_i2c_mqtt_machba.Window.{Window, push, fill, purge, cleared}
use esp32_s3_i2c_mqtt_machba.Window.Contents.{
  IsValid, contents, recent, slide, slide-recent, push-IsValid, push-contents,
}

module _ {F : Type 0} (d : F) where
  -- A run of samples.
  abbrev pub push_all : List F → Window F → Window F
  push_all [] w = w
  push_all (x ∷ xs) w = push_all xs (push d x w)

  pub samples_size-push : (x : F) (w : Window F) → (push d x w).samples_size ≡ w.samples_size
  unfolding push
  samples_size-push x w = ground arith

  pub push_all-IsValid : (xs : List F) (w : Window F) → IsValid w → IsValid (push_all xs w)
  push_all-IsValid [] w v = v
  push_all-IsValid (x ∷ xs) w v = push_all-IsValid xs (push d x w) (push-IsValid d x w v)

  pub samples_size-push_all :
      (xs : List F) (w : Window F) → (push_all xs w).samples_size ≡ w.samples_size
  samples_size-push_all [] w = refl
  samples_size-push_all (x ∷ xs) w = samples_size-push_all xs (push d x w) ∙ samples_size-push x w

  -- After a run of samples the array holds the most recent ones of the whole history.
  pub push_all-recent :
      (xs hist : List F) (w : Window F)
      → IsValid w
      → contents w ≡ recent w.samples_size hist
      → contents (push_all xs w) ≡ recent w.samples_size (hist ++ xs)
  push_all-recent [] hist w v e = rw append-nil e
  push_all-recent (x ∷ xs) hist w v e =
      let step : contents (push d x w) ≡ recent (push d x w).samples_size (hist ++ x ∷ []) =
        rw (push-contents d x w v, e, samples_size-push x w)
          (slide-recent w.samples_size x hist v.nonempty) in
      let rest = push_all-recent xs (hist ++ x ∷ []) (push d x w) (push-IsValid d x w v) step in
      rest
      ∙ ap (λ s. recent s ((hist ++ x ∷ []) ++ xs)) (samples_size-push x w)
      ∙ ap (λ h. recent w.samples_size h) (append_assoc hist (x ∷ []) xs)

  drop-nil : (n : ℕ) → drop {A = F} n [] ≡ []
  drop-nil zero = refl
  drop-nil (suc n) = refl

  -- A valid window that has stored nothing.
  abbrev pub IsFresh : ℕ → Window F → Type 0
  IsFresh size w = IsValid w × (w.samples_count ≡ 0) × (w.samples_size ≡ size)

  -- After a run of samples on a fresh window, and one more, it is valid and holds the most recent
  -- samples of the run.
  pub push-push_all-recent :
      (size : ℕ) (w : Window F) (before : List F) (x : F)
      → IsFresh size w
      → let w' = push d x (push_all before w) in
        IsValid w'
        × (w'.samples_size ≡ size)
        × (contents w' ≡ recent w'.samples_size (before ++ x ∷ []))
  push-push_all-recent size w before x (v, none_yet, sized) =
      let empty : contents w ≡ recent w.samples_size [] =
        ap (λ n. take n w.samples) none_yet ∙ sym (drop-nil (0 - w.samples_size)) in
      let u = push_all before w in
      let valid = push_all-IsValid before w v in
      let same = samples_size-push x u ∙ samples_size-push_all before w in
      let held : contents u ≡ recent u.samples_size before =
        push_all-recent before [] w v empty
        ∙ ap (λ s. recent s before) (sym (samples_size-push_all before w)) in
      let slid =
        push-contents d x u valid
        ∙ ap (slide u.samples_size x) held
        ∙ slide-recent u.samples_size x before valid.nonempty
        ∙ ap (λ s. recent s (before ++ x ∷ [])) (sym (samples_size-push x u)) in
      (push-IsValid d x u valid, same ∙ sized, slid)

  pub cleared-IsFresh :
      (zero_value : F) (size : ℕ)
      → 0 < size
      → size < 2 ^ 16
      → IsFresh size (cleared zero_value size)
  unfolding cleared
  cleared-IsFresh v size pos lt = omega (arith, length-replicate size v)

  fill-length : (v : F) (n i : ℕ) (xs : List F) → length (fill v n i xs) ≡ length xs
  unfolding fill
  fill-length v zero i xs = refl
  fill-length v (suc n) i xs = fill-length v n (suc i) (set xs i v) ∙ length-set xs i v

  pub purge-IsFresh : (nan : F) (w : Window F) → IsValid w → IsFresh w.samples_size (purge nan w)
  unfolding purge
  purge-IsFresh nan w v = omega (arith, v, fill-length nan w.samples_size 0 w.samples)
