-- ===== src/Float.antt =====
-- The floating-point numbers of the program, which antt does not have: the types `float` (`F`) and
-- `double` (`D`) and the operations that the program uses, as a record that the models take as an
-- argument.
pub mod Nan
pub mod Whole
use esp32_s3_i2c_mqtt_machba.Base.{ℕ, Bool}

pub record Fp (F D : Type 0) : Type 0 where
  -- `NAN`, the value of cleared memory, and subtraction and division on `float`
  pub f_nan : F
  pub f_zero : F
  pub f_sub : F → F → F
  pub f_div : F → F → F
  -- `lit m k` is the decimal number m / 10 ^ k, `of_nat n` an integer; `narrow` rounds to `float`
  pub lit : ℕ → ℕ → D
  pub of_nat : ℕ → D
  pub widen : F → D
  pub narrow : D → F
  pub add : D → D → D
  pub sub : D → D → D
  pub mul : D → D → D
  pub div : D → D → D
  pub neg : D → D
  pub sqrt : D → D
  pub fabs : D → D
  pub log : D → D
  pub log10 : D → D
  -- `a < b` and `a <= b`, false where one of the two is NAN
  pub lt : D → D → Bool
  pub le : D → D → Bool
  -- `a == b`
  pub eq : D → D → Bool
