-- ===== src/Bmp280/Board.antt =====
-- A device on a bus, in a world that keeps its registers, for concrete runs of the driver.
use esp32_s3_i2c_mqtt_machba.Base.{
  ℕ, ◌+◌, ◌*◌, ◌/◌, inl, inr, Bool-cases, ◌-◌, ◌^◌, ◌<◌, ◌≡◌, ◌==◌, refl, true, List, [], ◌∷◌,
  if◌then◌else◌, ltb, arith,
}
use esp32_s3_i2c_mqtt_machba.Base.Int.{pos, negsuc}
use esp32_s3_i2c_mqtt_machba.Esp.{EspErr, esp_ok, Os, HeapLaws}
use esp32_s3_i2c_mqtt_machba.I2c.{Bus}
use esp32_s3_i2c_mqtt_machba.Bmp280.Compensate.{CalFactors}
use esp32_s3_i2c_mqtt_machba.Bmp280.Device.{Bmp280}
use esp32_s3_i2c_mqtt_machba.Bmp280.Init.{Config}
use esp32_s3_i2c_mqtt_machba.Bmp280.Mirror.{Settles, Sensor}
use esp32_s3_i2c_mqtt_machba.Bmp280.Registers.{power_mode}
use esp32_s3_i2c_mqtt_machba.Bmp280.Poll.{TimerLaws}
use esp32_s3_i2c_mqtt_machba.Bmp280.Leak.{BusHeapLaws}

-- The example of the data sheet: 25.08 °C and 100653 Pa.
abbrev pub data_sheet : CalFactors
data_sheet = record {
  dig_t1 = pos 27504;
  dig_t2 = pos 26435;
  dig_t3 = negsuc 999;
  dig_p1 = pos 36477;
  dig_p2 = negsuc 10684;
  dig_p3 = pos 3024;
  dig_p4 = pos 2855;
  dig_p5 = pos 140;
  dig_p6 = negsuc 6;
  dig_p7 = pos 15500;
  dig_p8 = negsuc 14599;
  dig_p9 = pos 6000;
}

-- A world with the registers of one device, the number of live blocks and the time, which stops at
-- 2 ^ 62.
pub record Board : Type 0 where
  pub registers : ℕ → ℕ
  pub blocks : ℕ
  pub time : ℕ

abbrev set_register : ℕ → ℕ → (ℕ → ℕ) → ℕ → ℕ
set_register r v registers q = if q == r then v else registers q

abbrev tick : Board → Board
tick b = record b { time = if ltb b.time (2 ^ 62) then b.time + 1 else b.time }

abbrev transmit : ℕ → List ℕ → Board → EspErr × Board
transmit dev (r ∷ v ∷ []) b = (esp_ok, record b { registers = set_register r v b.registers })
transmit dev _ b = (esp_ok, b)

abbrev receive : ℕ → List ℕ → ℕ → Board → EspErr × List ℕ × Board
receive dev (r ∷ []) n b = (esp_ok, b.registers r ∷ [], tick b)
receive dev _ n b = (esp_ok, [], tick b)

abbrev pub board_os : Os Board
board_os = record {
  gettimeofday = λ b. (true, record { tv_sec = 0; tv_usec = 0 }, b);
  localtime_r = λ t. record {
    tm_sec = 0;
    tm_min = 0;
    tm_hour = 0;
    tm_mday = 1;
    tm_mon = 0;
    tm_year = 70;
    tm_isdst = 0;
  };
  mktime = λ tm. 0;
  calloc = λ b. (true, record b { blocks = b.blocks + 1 });
  free = λ b. record b { blocks = b.blocks - 1 };
  x_semaphore_create_mutex = λ b. (7, b);
  x_semaphore_take = λ _ b. b;
  x_semaphore_give = λ _ b. b;
  v_task_delay = λ _ b. b;
  port_tick_period_ms = 10;
}

abbrev pub board_bus : Bus Board
board_bus = record {
  i2c_master_transmit = transmit;
  i2c_master_transmit_receive = receive;
  i2c_master_receive = λ _ _ b. (esp_ok, [], b);
  i2c_master_probe = λ _ b. (esp_ok, b);
  i2c_master_bus_add_device = λ _ _ b. (esp_ok, 9, b);
  i2c_master_bus_rm_device = λ _ b. (esp_ok, b);
  esp_timer_get_time = λ b. (b.time, b);
  config_tick_rate_hz = 100;
}

abbrev pub board : Board
board = record { registers = λ r. if r == 208 then 88 else 0; blocks = 3; time = 1000 }

abbrev pub handle : Bmp280
handle = record {
  i2c_dev_handle = 9;
  dev_cal_factors = data_sheet;
  dev_type = 88;
  status_reg = 0;
  ctrl_meas_reg = 39;
  config_reg = 96;
}

-- The board with a sensor that is back in sleep mode after any delay that follows a write of a
-- forced mode.
abbrev settle : ℕ → ℕ
settle v = if power_mode v == 1 then v / 4 * 4 else if power_mode v == 2 then v / 4 * 4 else v

abbrev after_delay : (ℕ → ℕ) → ℕ → ℕ
after_delay registers q = if q == 244 then settle (registers 244) else registers q

abbrev pub sensor_os : Os Board
sensor_os = record board_os {
  v_task_delay = λ _ b. record b { registers = after_delay b.registers };
}

settle-Settles : (v : ℕ) → Settles v (settle v)
settle-Settles v = elim (Bool-cases (power_mode v == 1)) [
  | inl one ↦ rw one (inr (inl (ground (arith, one)), refl))
  | inr other ↦ elim (Bool-cases (power_mode v == 2)) [
    | inl two ↦ rw (other, two) (inr (inr (ground (arith, two)), refl))
    | inr neither ↦ rw (other, neither) (inl refl)
  ]
]

pub board-Sensor : Sensor sensor_os board_bus 9 (λ b. b.registers)
board-Sensor = record {
  write_ok = λ r v w. refl;
  read_ok = λ r w. refl;
  control_written = λ v w byte asleep. inl refl;
  control_keeps = λ v w. refl;
  config_written = λ v w byte clear asleep. refl;
  config_settles = λ v w. inl refl;
  control_read = λ w. (w.registers 244, refl, inl refl, inl refl);
  config_read = λ w. refl;
  read_settles = λ r w. inl refl;
  read_keeps = λ r w. refl;
  delay_settles = λ t w. settle-Settles (w.registers 244);
  delay_keeps = λ t w. refl;
}

abbrev pub board_time : Board → ℕ
board_time b = if ltb b.time (2 ^ 62) then b.time else 2 ^ 62

board_receive_takes :
    (dev : ℕ) (tx : List ℕ) (n : ℕ) (b : Board)
    → board_time b < 2 ^ 62
    → board_time b < board_time (receive dev tx n b).2
board_receive_takes dev [] n b lt = ground arith
board_receive_takes dev (r ∷ []) n b lt = ground arith
board_receive_takes dev (r ∷ q ∷ rest) n b lt = ground arith

abbrev pub timed_bus : Bus Board
timed_bus = record board_bus { esp_timer_get_time = λ b. (board_time b, b) }

pub board-TimerLaws : TimerLaws board_os timed_bus board_time
board-TimerLaws = record {
  timer_value = λ b. refl;
  timer_keeps = λ b. refl;
  delay_forward = λ t b. omega arith;
  below = λ b. ground arith;
  transfer_takes = board_receive_takes;
}

pub board-HeapLaws : HeapLaws board_os (λ b. b.blocks)
board-HeapLaws = record {
  calloc_some = λ w e. omega arith;
  calloc_none = λ w e. cc;
  free_one = λ w. refl;
  clock_keeps = λ w. refl;
  mutex_keeps = λ w. refl;
}

transmit_keeps_blocks :
    (dev : ℕ) (tx : List ℕ) (b : Board) → (transmit dev tx b).1.blocks ≡ b.blocks
transmit_keeps_blocks dev [] b = refl
transmit_keeps_blocks dev (r ∷ []) b = refl
transmit_keeps_blocks dev (r ∷ v ∷ []) b = refl
transmit_keeps_blocks dev (r ∷ v ∷ q ∷ rest) b = refl

receive_keeps_blocks :
    (dev : ℕ) (tx : List ℕ) (n : ℕ) (b : Board) → (receive dev tx n b).2.blocks ≡ b.blocks
receive_keeps_blocks dev [] n b = refl
receive_keeps_blocks dev (r ∷ []) n b = refl
receive_keeps_blocks dev (r ∷ q ∷ rest) n b = refl

pub board-BusHeapLaws : BusHeapLaws board_os board_bus (λ b. b.blocks)
board-BusHeapLaws = record {
  transmit_keeps = transmit_keeps_blocks;
  receive_keeps = receive_keeps_blocks;
  probe_keeps = λ a w. refl;
  add_keeps = λ a hz w. refl;
  rm_keeps = λ dev w. refl;
  delay_keeps = λ t w. refl;
}

abbrev pub config : Config
config = record {
  device_address = 119;
  scl_speed_hz = 100000;
  config_power_mode = 3;
  config_iir_filter = 0;
  config_pressure_oversampling = 3;
  config_temperature_oversampling = 1;
  config_standby_time = 3;
}

-- The chip identifier of this board is not that of the sensor.
abbrev pub wrong_board : Board
wrong_board = record board { registers = λ r. 96 }
