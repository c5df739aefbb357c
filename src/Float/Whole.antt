-- ===== src/Float/Whole.antt =====
-- Whole numbers with NAN in the place of floating-point numbers, for concrete runs: division rounds
-- towards zero, and the functions that no run depends on give NAN.
use esp32_s3_i2c_mqtt_machba.Base.{
  ◌/◌, ◌^◌, Bool, false, ◌&&◌, Option, none, some, if◌then◌else◌, ◌≡◌, refl,
}
use esp32_s3_i2c_mqtt_machba.Base.Int.{ℤ, pos, ◌+ℤ◌, ◌-ℤ◌, ◌*ℤ◌, div_ℤ, leb_ℤ, ltb_ℤ}
use esp32_s3_i2c_mqtt_machba.Float.{Fp}
use esp32_s3_i2c_mqtt_machba.Float.Nan.{NanLaws}

abbrev lift : (ℤ → ℤ → ℤ) → Option ℤ → Option ℤ → Option ℤ
lift f (some a) (some b) = some (f a b)
lift f (some a) none = none
lift f none b = none

abbrev compare_by : (ℤ → ℤ → Bool) → Option ℤ → Option ℤ → Bool
compare_by f (some a) (some b) = f a b
compare_by f (some a) none = false
compare_by f none b = false

abbrev abs : Option ℤ → Option ℤ
abs (some a) = if ltb_ℤ a (pos 0) then some (pos 0 -ℤ a) else some a
abs none = none

-- The least root is not needed: a square root is taken of 0 and 1 only.
abbrev root : Option ℤ → Option ℤ
root (some a) = some a
root none = none

abbrev pub whole : Fp (Option ℤ) (Option ℤ)
whole = record {
  f_nan = none;
  f_zero = some (pos 0);
  f_sub = lift ◌-ℤ◌;
  f_div = lift div_ℤ;
  lit = λ m k. some (pos (m / 10 ^ k));
  of_nat = λ n. some (pos n);
  widen = λ a. a;
  narrow = λ a. a;
  add = lift ◌+ℤ◌;
  sub = lift ◌-ℤ◌;
  mul = lift ◌*ℤ◌;
  div = lift div_ℤ;
  neg = λ a. lift ◌-ℤ◌ (some (pos 0)) a;
  sqrt = root;
  fabs = abs;
  log = λ a. none;
  log10 = λ a. none;
  lt = compare_by ltb_ℤ;
  le = compare_by leb_ℤ;
  eq = compare_by (λ a b. leb_ℤ a b && leb_ℤ b a);
}

lift-none : (f : ℤ → ℤ → ℤ) (a : Option ℤ) → lift f a none ≡ none
lift-none f none = refl
lift-none f (some a) = refl

compare_by-none : (f : ℤ → ℤ → Bool) (a : Option ℤ) → compare_by f a none ≡ false
compare_by-none f none = refl
compare_by-none f (some a) = refl

pub whole-NanLaws : NanLaws whole none
whole-NanLaws = record {
  widen_nan = refl;
  add_nan = lift-none _;
  nan_add = λ a. refl;
  sub_nan = lift-none _;
  nan_sub = λ a. refl;
  mul_nan = lift-none _;
  nan_mul = λ a. refl;
  nan_div = λ a. refl;
  fabs_nan = refl;
  nan_lt = λ a. refl;
  lt_nan = compare_by-none _;
  f_nan_sub = λ a. refl;
  f_sub_nan = lift-none _;
}
