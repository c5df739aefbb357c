-- ===== src/Window.antt =====
-- The samples array that scalar_trend.c and pressure_tendency.c keep in the same way: a sample is
-- appended while there is room, and otherwise shifts the array to the left by one.
pub mod Contents
pub mod History
use esp32_s3_i2c_mqtt_machba.Base.{
  ℕ, zero, suc, ◌+◌, ◌-◌, List, get_or, set, ltb, if◌then◌else◌, replicate,
}
use esp32_s3_i2c_mqtt_machba.Base.Word.{u16}

-- `struct pressure_tendency_t`, which is also what `struct scalar_trend_t` holds of the samples.
pub record Window (F : Type 0) : Type 0 where
  pub samples_count : ℕ
  pub samples_size : ℕ
  pub samples : List F

module _ {F : Type 0} (d : F) where
  -- `for (i = 1; i < size; i++) samples[i-1] = samples[i];` on the rounds that are left.
  unfoldable pub shift : ℕ → ℕ → List F → List F
  shift zero i xs = xs
  shift (suc n) i xs = shift n (suc i) (set xs (i - 1) (get_or xs i d))

  -- The first half of an analysis: the sample is stored.
  unfoldable pub push : F → Window F → Window F
  unfolding shift
  push x w =
      if ltb w.samples_count w.samples_size
      then record w {
        samples = set w.samples w.samples_count x;
        samples_count = u16 (w.samples_count + 1);
      }
      else record w {
        samples = set (shift (w.samples_size - 1) 1 w.samples) (w.samples_size - 1) x;
      }

-- `for (i = 0; i < size; i++) samples[i] = NAN;` on the rounds that are left.
unfoldable pub fill {ℓ} : {F : Type ℓ} → F → ℕ → ℕ → List F → List F
fill v zero i xs = xs
fill v (suc n) i xs = fill v n (suc i) (set xs i v)

-- A reset: the samples are purged and the counter starts again.
unfoldable pub purge : {F : Type 0} → F → Window F → Window F
unfolding fill
purge nan w = record w { samples = fill nan w.samples_size 0 w.samples; samples_count = 0 }

-- What an initialization makes of the memory from `calloc`.
unfoldable pub cleared : {F : Type 0} → F → ℕ → Window F
cleared zero_value size = record {
  samples_count = 0;
  samples_size = size;
  samples = replicate size zero_value;
}
