-- ===== src/Nvs.antt =====
-- components/esp_nvs_ext/nvs_ext.c: numbers kept as text in the flash storage, which the repository
-- adds to another author's component.
pub mod RoundTrip
pub mod Leak
mod Examples
use esp32_s3_i2c_mqtt_machba.Base.{ℕ, ◌+◌, ◌-◌, ◌^◌, Bool, ◌&&◌, List, length, if◌then◌else◌}
use esp32_s3_i2c_mqtt_machba.Base.Int.{ℤ, pos, leb_ℤ}
use esp32_s3_i2c_mqtt_machba.Esp.{EspErr, esp_err_no_mem, idf, is_ok}

-- The flash storage of ESP-IDF in one namespace, its handles numbered, and the heap.
-- `nvs_get_str_size` is `nvs_get_str` without a buffer; `nvs_get_str` is given the size of its own.
pub record Nvs (W : Type 0) : Type 0 where
  pub nvs_open : W → EspErr × ℕ × W
  pub nvs_get_str_size : ℕ → List ℕ → W → EspErr × ℕ × W
  pub nvs_get_str : ℕ → List ℕ → ℕ → W → EspErr × List ℕ × W
  pub nvs_set_str : ℕ → List ℕ → List ℕ → W → EspErr × W
  pub nvs_commit : ℕ → W → EspErr × W
  pub nvs_close : ℕ → W → W
  pub malloc : ℕ → W → Bool × W
  pub free : W → W

-- The C library on a floating-point type: `snprintf` with its format into a buffer of a size, with
-- its result and the string in the buffer, and `strtof` or `strtod`.
pub record Real (F : Type 0) : Type 0 where
  pub snprintf : ℕ → F → ℤ × List ℕ
  pub strto : List ℕ → F

-- `FLOAT_MAX_STRING_LENGTH` and `DOUBLE_MAX_STRING_LENGTH`
abbrev pub float_max_string_length : ℕ
float_max_string_length = 32

abbrev pub double_max_string_length : ℕ
double_max_string_length = 64

-- `ESP_FAIL`, which is -1.
abbrev pub esp_fail : EspErr
esp_fail = idf (2 ^ 32 - 1)

module _ {W F : Type 0} (nvs : Nvs W) (real : Real F) where
  -- The string saved; the statuses of `nvs_open` and `nvs_set_str` are dropped.
  unfoldable pub save : List ℕ → List ℕ → W → EspErr × W
  save key string w =
      let (opened, handle, w1) = nvs.nvs_open w in
      let (set, w2) = nvs.nvs_set_str handle key string w1 in
      let (err, w3) = nvs.nvs_commit handle w2 in (err, nvs.nvs_close handle w3)

  -- What is done with the result of `snprintf`.
  unfoldable pub save_printed : List ℕ → ℤ × List ℕ → W → EspErr × W
  unfolding save
  save_printed key (result, string) w =
      if leb_ℤ (pos 0) result && leb_ℤ result (pos (length string))
      then save key string w
      else (esp_fail, w)

  unfoldable pub write_real : ℕ → List ℕ → F → W → EspErr × W
  unfolding save_printed
  write_real size key x w =
      let (there, w1) = nvs.malloc size w in
      if there
      then (let (err, w2) = save_printed key (real.snprintf size x) w1 in (err, nvs.free w2))
      else (esp_err_no_mem, w1)

  -- `nvs_write_float` and `nvs_write_double`
  unfoldable pub nvs_write_float : List ℕ → F → W → EspErr × W
  unfolding write_real
  nvs_write_float = write_real float_max_string_length

  unfoldable pub nvs_write_double : List ℕ → F → W → EspErr × W
  unfolding write_real
  nvs_write_double = write_real double_max_string_length

  -- From the buffer on. The buffer is freed on the error path alone.
  unfoldable pub read_into : ℕ → List ℕ → ℕ → F → W → EspErr × F × W
  read_into handle key required_size out w =
      let (err, string, w1) = nvs.nvs_get_str handle key required_size w in
      if is_ok err
      then (err, real.strto string, nvs.nvs_close handle w1)
      else (err, out, nvs.nvs_close handle (nvs.free w1))

  unfoldable pub read_real : List ℕ → F → W → EspErr × F × W
  unfolding read_into
  read_real key out w =
      let (opened, handle, w1) = nvs.nvs_open w in
      let (err, required_size, w2) = nvs.nvs_get_str_size handle key w1 in
      if is_ok err
      then (let (there, w3) = nvs.malloc required_size w2 in
          if there
          then read_into handle key required_size out w3
          else (esp_err_no_mem, out, nvs.nvs_close handle w3))
      else (err, out, nvs.nvs_close handle w2)

  -- `nvs_read_float` and `nvs_read_double`: the status, and the value in the place of the caller's
  -- `out`.
  unfoldable pub nvs_read_float : List ℕ → F → W → EspErr × F × W
  unfolding read_real
  nvs_read_float = read_real

  unfoldable pub nvs_read_double : List ℕ → F → W → EspErr × F × W
  unfolding read_real
  nvs_read_double = read_real
