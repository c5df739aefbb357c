-- ===== src/Interval/Advance.antt =====
-- The loop that looks for the first event ahead of the clock.
use esp32_s3_i2c_mqtt_machba.Base.{
  ℕ, zero, suc, ◌+◌, ◌*◌, ◌^◌, ◌≤◌, ◌<◌, ◌≡◌, ◌∙◌, true, false, inl, inr, arith, leb, Bool-cases,
  leb→le, leb_false→lt,
}
use esp32_s3_i2c_mqtt_machba.Base.Word.{leb_ℤ-signed64-sub64, u64}
use esp32_s3_i2c_mqtt_machba.Interval.Event.{not_ahead, advance}

-- `result` is the first of `start`, `start + period`, ... that lies after `now`.
pub record FirstAhead (start period now result : ℕ) : Type 0 where
  pub steps : ℕ
  pub reached : result ≡ start + steps * period
  pub ahead : now < result
  pub earlier : (j : ℕ) → j < steps → start + j * period ≤ now

pub FirstAhead-prepend :
    (start period now : ℕ) {result : ℕ}
    → start ≤ now
    → FirstAhead (start + period) period now result
    → FirstAhead start period now result
FirstAhead-prepend start period now {result} due f = record {
  steps = suc f.steps;
  reached = omega (arith, f.reached);
  ahead = f.ahead;
  earlier = λ j h. before j h;
}
  where
    before : (j : ℕ) → j < suc f.steps → start + j * period ≤ now
    before zero h = omega arith
    before (suc j) h = omega (arith, f.earlier j (omega arith))

not_ahead-leb : (next now : ℕ) → next < 2 ^ 63 → now < 2 ^ 63 → not_ahead next now ≡ leb next now
unfolding not_ahead
not_ahead-leb = leb_ℤ-signed64-sub64

advance_due :
    (fuel period now next : ℕ)
    → not_ahead next now ≡ true
    → advance (suc fuel) period now next ≡ advance fuel period now (u64 (next + period))
unfolding advance
advance_due fuel period now next h = rw (h, advance)

advance_over :
    (fuel period now next : ℕ)
    → not_ahead next now ≡ false
    → advance (suc fuel) period now next ≡ next
unfolding advance
advance_over fuel period now next h = rw (h, advance)

-- With fuel for each milli-second that `next` is behind, the loop ends by its test.
pub advance-FirstAhead :
    (fuel period now next : ℕ)
    → 0 < period
    → period < 2 ^ 32
    → now < 2 ^ 62
    → next < 2 ^ 63
    → now < fuel + next
    → FirstAhead next period now (advance fuel period now next)
unfolding advance
advance-FirstAhead zero period now next p q r s enough = record {
  steps = 0;
  reached = omega arith;
  ahead = omega arith;
  earlier = λ j h. absurd (omega arith);
}
advance-FirstAhead (suc fuel) period now next p q r s enough =
    let test = not_ahead-leb next now s (omega arith) in
    elim (Bool-cases (leb next now)) [
      | inl due ↦
          let le = leb→le next now due in
          let wrap : u64 (next + period) ≡ next + period = omega arith in
          rw (advance_due fuel period now next (test ∙ due), wrap)
            (FirstAhead-prepend next period now le (
              advance-FirstAhead fuel period now (next + period) p q r (omega arith) (omega arith)))
      | inr over ↦ rw (advance_over fuel period now next (test ∙ over)) (record {
        steps = 0;
        reached = omega arith;
        ahead = leb_false→lt next now over;
        earlier = λ j h. absurd (omega arith);
      })
    ]
