-- ===== src/Tendency/History.antt =====
-- The tendency is that of the last `samples_size` samples of the whole history.
use esp32_s3_i2c_mqtt_machba.Base.{
  ℕ, suc, ◌+◌, ◌-◌, ◌^◌, ◌<◌, ◌≡◌, ◌∙◌, refl, ap, true, false, Option, none, some, List, [], ◌∷◌,
  ◌++◌, length, get_or, length-drop, length-take, get_or-drop, ltb, ltb→lt, ltb_false→le, lt→ltb,
  le→ltb_false, sym, Bool-cases, Bool, leb, leb_false→lt, inl, inr, if◌then◌else◌, arith,
}
use esp32_s3_i2c_mqtt_machba.Esp.{EspErr, esp_ok, Os, is_ok, HeapLaws}
use esp32_s3_i2c_mqtt_machba.Float.{Fp}
use esp32_s3_i2c_mqtt_machba.Window.{Window, push, purge}
use esp32_s3_i2c_mqtt_machba.Window.Contents.{IsValid, contents, recent, take-all}
use esp32_s3_i2c_mqtt_machba.Window.History.{
  push_all, IsFresh, push-push_all-recent, purge-IsFresh, cleared-IsFresh,
}
use esp32_s3_i2c_mqtt_machba.Tendency.{
  TendencyCode, unknown, classify, verdict, pressure_tendency_analysis, pressure_tendency_reset,
  pressure_tendency_init, init_handle, init_samples,
}

module _ {F D : Type 0} (fp : Fp F D) where
  -- What should be reported after a history of samples: nothing before there are `size` of them, and
  -- then the class of the newest one less the one `size - 1` samples before it.
  unfoldable pub tendency_of : ℕ → List F → TendencyCode × F
  tendency_of size hist =
      if ltb (length hist) size
      then (unknown, fp.f_nan)
      else classify fp (
          fp.f_sub (get_or hist (length hist - 1) fp.f_nan)
            (get_or hist (length hist - size) fp.f_nan))

  verdict-tendency_of :
      (w : Window F) (hist : List F)
      → IsValid w
      → contents w ≡ recent w.samples_size hist
      → verdict fp w ≡ tendency_of w.samples_size hist
  unfolding verdict tendency_of
  verdict-tendency_of w hist v e =
      let count = length-take w.samples_count w.samples in
      let same = ap length e in
      let len = length-drop (length hist - w.samples_size) hist in
      elim (Bool-cases (ltb w.samples_count w.samples_size)) [
        | inl few ↦
            let lt = ltb→lt w.samples_count w.samples_size few in
            let short : length hist < w.samples_size = omega (arith, v) in
            rw (few, lt→ltb (length hist) w.samples_size short)
        | inr full ↦
            let le = ltb_false→le w.samples_count w.samples_size full in
            let long : ltb (length hist) w.samples_size ≡ false =
              le→ltb_false (length hist) w.samples_size (omega (arith, v)) in
            let all : w.samples ≡ recent w.samples_size hist =
              sym (take-all w.samples_count w.samples (omega (arith, v))) ∙ e in
            let newest : length hist - w.samples_size + (w.samples_size - 1) ≡ length hist - 1 =
              omega (arith, v) in
            let oldest : length hist - w.samples_size + 0 ≡ length hist - w.samples_size =
              omega arith in
            let read_newest =
              ap (λ xs. get_or xs (w.samples_size - 1) fp.f_nan) all
              ∙ get_or-drop (length hist - w.samples_size) (w.samples_size - 1) hist fp.f_nan
              ∙ ap (λ i. get_or hist i fp.f_nan) newest in
            let read_oldest =
              ap (λ xs. get_or xs 0 fp.f_nan) all
              ∙ get_or-drop (length hist - w.samples_size) 0 hist fp.f_nan
              ∙ ap (λ i. get_or hist i fp.f_nan) oldest in
            rw (full, long) (rw (read_newest, read_oldest))
      ]

  -- The analysis of a sample after any run of samples on a fresh handle reports the tendency of that
  -- whole history, and keeps the array within its bounds.
  pub pressure_tendency_analysis-tendency_of :
      (size : ℕ) (w : Window F) (before : List F) (sample : F) (out : TendencyCode × F)
      → IsFresh fp.f_nan size w
      → (w' : Window F) × (pressure_tendency_analysis fp
            (some (push_all fp.f_nan before w))
            sample
            out
          ≡ (esp_ok, some w', tendency_of size (before ++ sample ∷ [])))
        × IsValid w'
  unfolding pressure_tendency_analysis
  pressure_tendency_analysis-tendency_of size w before sample out fresh =
      let w' = push fp.f_nan sample (push_all fp.f_nan before w) in
      let (valid, same, held) = push-push_all-recent fp.f_nan size w before sample fresh in
      let report =
        verdict-tendency_of w' (before ++ sample ∷ []) valid held
        ∙ ap (λ s. tendency_of s (before ++ sample ∷ [])) same in
      (w', ap (λ r. (esp_ok, some w', r)) report, valid)

  -- A reset makes any valid handle fresh, at the same size.
  pub pressure_tendency_reset-IsFresh :
      (w : Window F)
      → IsValid w
      → (w' : Window F) × (pressure_tendency_reset fp (some w) ≡ (esp_ok, some w'))
        × IsFresh fp.f_nan w.samples_size w'
  unfolding pressure_tendency_reset
  pressure_tendency_reset-IsFresh w v =
      (purge fp.f_nan w, refl, purge-IsFresh fp.f_nan fp.f_nan w v)

  -- What an initialization with this status has left in the caller's handle variable, which held
  -- `out`.
  abbrev pub Initialized : ℕ → Option (Window F) → EspErr → Option (Window F) → Type 0
  Initialized size out esp_ok (some w) = (2 < size) × IsFresh fp.f_nan size w
  Initialized size out esp_ok none = ⊥
  Initialized size out _ out' = out' ≡ out

  module _ {W : Type 0} (os : Os W) (size : ℕ) (out : Option (Window F)) (lt : size < 2 ^ 16) where
    init_handle-Initialized :
        (got : Bool × W)
        → 2 < size
        → let r = init_handle fp os size out got in Initialized size out r.0 r.1
    unfolding init_handle
    init_handle-Initialized (false, w) big = refl
    init_handle-Initialized (true, w) big = init_samples-Initialized (os.calloc w)
      where
        init_samples-Initialized :
            (got : Bool × W)
            → let r = init_samples fp os size out got in Initialized size out r.0 r.1
        init_samples-Initialized (false, w) = refl
        init_samples-Initialized (true, w) =
            (big, cleared-IsFresh fp.f_nan fp.f_zero size (omega arith) lt)

    -- An initialization that succeeds was asked for more than 2 samples and yields a fresh handle of
    -- that size; one that fails leaves the caller's handle variable as it was.
    pub pressure_tendency_init-Initialized :
        (w : W) → let r = pressure_tendency_init fp os size out w in Initialized size out r.0 r.1
    unfolding pressure_tendency_init
    pressure_tendency_init-Initialized w = elim (Bool-cases (leb size 2)) [
      | inl few ↦ rw few
      | inr many ↦ rw many (init_handle-Initialized (os.calloc w) (leb_false→lt size 2 many))
    ]

  -- The live blocks.
  module _ {W : Type 0} (os : Os W) (live : W → ℕ) (laws : HeapLaws os live) (size : ℕ)
      (out : Option (Window F)) where
    live-init_samples :
        (n : ℕ) (got : Bool × W)
        → live got.1 ≡ (if got.0 then suc n else n)
        → 0 < n
        → let r = init_samples fp os size out got in live r.2 + 1 ≡ n + (if is_ok r.0 then 2 else 0)
    unfolding init_samples
    live-init_samples n (true, w) e pos = omega arith
    live-init_samples n (false, w) e pos = omega (arith, laws.free_one w)

    live-init_handle :
        (n : ℕ) (got : Bool × W)
        → live got.1 ≡ (if got.0 then suc n else n)
        → let r = init_handle fp os size out got in live r.2 ≡ n + (if is_ok r.0 then 2 else 0)
    unfolding init_handle
    live-init_handle n (false, w) e = omega arith
    live-init_handle n (true, w) e =
        ground
          (arith, laws.calloc_some w, laws.calloc_none w, live-init_samples (suc n) (os.calloc w))

    -- An initialization that succeeds keeps two blocks of memory, the handle and its samples; one
    -- that fails keeps none.
    pub live-pressure_tendency_init :
        (w : W)
        → let r = pressure_tendency_init fp os size out w in
          live r.2 ≡ live w + (if is_ok r.0 then 2 else 0)
    unfolding pressure_tendency_init
    live-pressure_tendency_init w =
        ground
          (arith, laws.calloc_some w, laws.calloc_none w, live-init_handle (live w) (os.calloc w))
