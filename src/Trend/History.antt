-- ===== src/Trend/History.antt =====
-- The trend is that of the last `samples_size` samples of the whole history.
use esp32_s3_i2c_mqtt_machba.Base.{
  ℕ, suc, ◌+◌, ◌-◌, ◌^◌, ◌<◌, ◌≡◌, ◌∙◌, refl, ap, true, false, Option, none, some, List, [], ◌∷◌,
  ◌++◌, length, length-drop, length-take, ltb, ltb→lt, ltb_false→le, lt→ltb, le→ltb_false, sym,
  Bool-cases, Bool, leb, leb_false→lt, inl, inr, if◌then◌else◌, arith,
}
use esp32_s3_i2c_mqtt_machba.Esp.{EspErr, esp_ok, Os, is_ok, HeapLaws}
use esp32_s3_i2c_mqtt_machba.Float.{Fp}
use esp32_s3_i2c_mqtt_machba.Window.{push, purge}
use esp32_s3_i2c_mqtt_machba.Window.Contents.{IsValid, contents, recent, take-all}
use esp32_s3_i2c_mqtt_machba.Window.History.{
  push_all, IsFresh, push-push_all-recent, purge-IsFresh, cleared-IsFresh,
}
use esp32_s3_i2c_mqtt_machba.Trend.Fit.{TrendCode, unknown, fit}
use esp32_s3_i2c_mqtt_machba.Trend.Handle.{
  Trend, verdict, scalar_trend_analysis, scalar_trend_reset, new_trend, scalar_trend_init,
  init_handle, init_samples,
}

module _ {F D : Type 0} (fp : Fp F D) where
  -- What should be reported after a history of samples: nothing before there are `size` of them, and
  -- then the outcome of the fit of the last `size`.
  unfoldable pub trend_of : D → ℕ → List F → TrendCode
  trend_of critical_t size hist =
      if ltb (length hist) size then unknown else fit fp critical_t size (recent size hist)

  verdict-trend_of :
      (t : Trend F D) (hist : List F)
      → IsValid t.window
      → contents t.window ≡ recent t.window.samples_size hist
      → verdict fp t ≡ trend_of t.critical_t t.window.samples_size hist
  unfolding verdict trend_of
  verdict-trend_of t hist v e =
      let w = t.window in
      let count = length-take w.samples_count w.samples in
      let same = ap length e in
      let len = length-drop (length hist - w.samples_size) hist in
      elim (Bool-cases (ltb w.samples_count w.samples_size)) [
        | inl few ↦
            let lt = ltb→lt w.samples_count w.samples_size few in
            let short : length hist < w.samples_size = omega (arith, v) in
            rw (few, lt→ltb (length hist) w.samples_size short)
        | inr full ↦
            let le = ltb_false→le w.samples_count w.samples_size full in
            let long : ltb (length hist) w.samples_size ≡ false =
              le→ltb_false (length hist) w.samples_size (omega (arith, v)) in
            let all : w.samples ≡ recent w.samples_size hist =
              sym (take-all w.samples_count w.samples (omega (arith, v))) ∙ e in
            rw (full, long) (ap (fit fp t.critical_t w.samples_size) all)
      ]

  -- The handle that a run of samples makes of a handle.
  abbrev pub after : List F → Trend F D → Trend F D
  after before t = record t { window = push_all fp.f_nan before t.window }

  -- The analysis of a sample after any run of samples on a fresh handle reports the trend of that
  -- whole history, and keeps the array within its bounds and the critical value as it was.
  pub scalar_trend_analysis-trend_of :
      (size : ℕ) (t : Trend F D) (before : List F) (sample : F) (out : TrendCode)
      → IsFresh fp.f_nan size t.window
      → (t' : Trend F D) × (scalar_trend_analysis fp (some (after before t)) sample out
          ≡ (esp_ok, some t', trend_of t.critical_t size (before ++ sample ∷ [])))
        × IsValid t'.window
        × (t'.critical_t ≡ t.critical_t)
  unfolding scalar_trend_analysis
  scalar_trend_analysis-trend_of size t before sample out fresh =
      let w' = push fp.f_nan sample (push_all fp.f_nan before t.window) in
      let t' : Trend F D = record t { window = w' } in
      let (valid, same, held) = push-push_all-recent fp.f_nan size t.window before sample fresh in
      let report =
        verdict-trend_of t' (before ++ sample ∷ []) valid held
        ∙ ap (λ s. trend_of t.critical_t s (before ++ sample ∷ [])) same in
      (t', ap (λ r. (esp_ok, some t', r)) report, valid, refl)

  -- A reset makes any valid handle fresh, at the same size and with the same critical value.
  pub scalar_trend_reset-IsFresh :
      (t : Trend F D)
      → IsValid t.window
      → (t' : Trend F D) × (scalar_trend_reset fp (some t) ≡ (esp_ok, some t'))
        × IsFresh fp.f_nan t.window.samples_size t'.window
        × (t'.critical_t ≡ t.critical_t)
  unfolding scalar_trend_reset
  scalar_trend_reset-IsFresh t v =
      let w' = purge fp.f_nan t.window in
      (record t { window = w' }, refl, purge-IsFresh fp.f_nan fp.f_nan t.window v, refl)

  -- What an initialization with this status has left in the caller's handle variable, which held
  -- `out`.
  abbrev pub Initialized : ℕ → Option (Trend F D) → EspErr → Option (Trend F D) → Type 0
  Initialized size out esp_ok (some t) = (2 < size) × IsFresh fp.f_nan size t.window
  Initialized size out esp_ok none = ⊥
  Initialized size out _ out' = out' ≡ out

  module _ {W : Type 0} (os : Os W) (size : ℕ) (out : Option (Trend F D)) (lt : size < 2 ^ 16) where
    init_handle-Initialized :
        (got : Bool × W)
        → 2 < size
        → let r = init_handle fp os size out got in Initialized size out r.0 r.1
    unfolding init_handle new_trend
    init_handle-Initialized (false, w) big = refl
    init_handle-Initialized (true, w) big = init_samples-Initialized (os.calloc w)
      where
        init_samples-Initialized :
            (got : Bool × W)
            → let r = init_samples fp os size out got in Initialized size out r.0 r.1
        init_samples-Initialized (false, w) = refl
        init_samples-Initialized (true, w) =
            (big, cleared-IsFresh fp.f_nan fp.f_zero size (omega arith) lt)

    -- An initialization that succeeds was asked for more than 2 samples and yields a fresh handle of
    -- that size; one that fails leaves the caller's handle variable as it was.
    pub scalar_trend_init-Initialized :
        (w : W) → let r = scalar_trend_init fp os size out w in Initialized size out r.0 r.1
    unfolding scalar_trend_init
    scalar_trend_init-Initialized w = elim (Bool-cases (leb size 2)) [
      | inl few ↦ rw few
      | inr many ↦ rw many (init_handle-Initialized (os.calloc w) (leb_false→lt size 2 many))
    ]

  -- The live blocks.
  module _ {W : Type 0} (os : Os W) (live : W → ℕ) (laws : HeapLaws os live) (size : ℕ)
      (out : Option (Trend F D)) where
    live-init_samples :
        (n : ℕ) (got : Bool × W)
        → live got.1 ≡ (if got.0 then suc n else n)
        → 0 < n
        → let r = init_samples fp os size out got in live r.2 + 1 ≡ n + (if is_ok r.0 then 2 else 0)
    unfolding init_samples
    live-init_samples n (true, w) e pos = omega arith
    live-init_samples n (false, w) e pos = omega (arith, laws.free_one w)

    live-init_handle :
        (n : ℕ) (got : Bool × W)
        → live got.1 ≡ (if got.0 then suc n else n)
        → let r = init_handle fp os size out got in live r.2 ≡ n + (if is_ok r.0 then 2 else 0)
    unfolding init_handle
    live-init_handle n (false, w) e = omega arith
    live-init_handle n (true, w) e =
        ground
          (arith, laws.calloc_some w, laws.calloc_none w, live-init_samples (suc n) (os.calloc w))

    -- An initialization that succeeds keeps two blocks of memory, the handle and its samples; one
    -- that fails keeps none.
    pub live-scalar_trend_init :
        (w : W)
        → let r = scalar_trend_init fp os size out w in
          live r.2 ≡ live w + (if is_ok r.0 then 2 else 0)
    unfolding scalar_trend_init
    live-scalar_trend_init w =
        ground
          (arith, laws.calloc_some w, laws.calloc_none w, live-init_handle (live w) (os.calloc w))
