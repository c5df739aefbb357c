-- ===== src/Float/Nan.antt =====
-- How IEEE 754 treats NAN: it runs through arithmetic and fails every comparison.
use esp32_s3_i2c_mqtt_machba.Base.{◌≡◌, false}
use esp32_s3_i2c_mqtt_machba.Float.{Fp}

pub record NanLaws {F D : Type 0} (fp : Fp F D) (nan : D) : Type 0 where
  pub widen_nan : fp.widen fp.f_nan ≡ nan
  pub add_nan : (a : D) → fp.add a nan ≡ nan
  pub nan_add : (a : D) → fp.add nan a ≡ nan
  pub sub_nan : (a : D) → fp.sub a nan ≡ nan
  pub nan_sub : (a : D) → fp.sub nan a ≡ nan
  pub mul_nan : (a : D) → fp.mul a nan ≡ nan
  pub nan_mul : (a : D) → fp.mul nan a ≡ nan
  pub nan_div : (a : D) → fp.div nan a ≡ nan
  pub fabs_nan : fp.fabs nan ≡ nan
  pub nan_lt : (a : D) → fp.lt nan a ≡ false
  pub lt_nan : (a : D) → fp.lt a nan ≡ false
  pub f_nan_sub : (a : F) → fp.f_sub fp.f_nan a ≡ fp.f_nan
  pub f_sub_nan : (a : F) → fp.f_sub a fp.f_nan ≡ fp.f_nan
