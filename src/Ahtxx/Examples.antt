-- ===== src/Ahtxx/Examples.antt =====
-- The theorems on the driver at concrete inputs.
use esp32_s3_i2c_mqtt_machba.Base.{ℕ, ◌+◌, ◌-◌, ◌≡◌, refl, true, none, some, [], ◌∷◌, arith}
use esp32_s3_i2c_mqtt_machba.Esp.{esp_ok, Os, HeapLaws}
use esp32_s3_i2c_mqtt_machba.I2c.{Bus}
use esp32_s3_i2c_mqtt_machba.Ahtxx.Device.{aht2x}
use esp32_s3_i2c_mqtt_machba.Ahtxx.Measure.{
  raw_humidity, raw_temperature, data_frame, raw-data_frame,
}
use esp32_s3_i2c_mqtt_machba.Ahtxx.Init.{Config, i2c_ahtxx_init}
use esp32_s3_i2c_mqtt_machba.Ahtxx.Memory.{BusHeapLaws, blocks_left, live-i2c_ahtxx_init}
use esp32_s3_i2c_mqtt_machba.Ahtxx.Kind.{Stored, i2c_ahtxx_init-Stored}

raw-data_frame_example :
    (raw_humidity (data_frame 28 524288 393216) ≡ 524288)
    × (raw_temperature (data_frame 28 524288 393216) ≡ 393216)
raw-data_frame_example = raw-data_frame 28 524288 393216 (omega arith) (omega arith)

-- A world that counts the blocks on the heap.
abbrev heap_os : Os ℕ
heap_os = record {
  gettimeofday = λ n. (true, record { tv_sec = 0; tv_usec = 0 }, n);
  localtime_r = λ t. record {
    tm_sec = 0;
    tm_min = 0;
    tm_hour = 0;
    tm_mday = 1;
    tm_mon = 0;
    tm_year = 70;
    tm_isdst = 0;
  };
  mktime = λ tm. 0;
  calloc = λ n. (true, n + 1);
  free = λ n. n - 1;
  x_semaphore_create_mutex = λ n. (7, n);
  x_semaphore_take = λ _ n. n;
  x_semaphore_give = λ _ n. n;
  v_task_delay = λ _ n. n;
  port_tick_period_ms = 10;
}

-- A sensor that is ready.
abbrev ready_bus : Bus ℕ
ready_bus = record {
  i2c_master_transmit = λ _ _ n. (esp_ok, n);
  i2c_master_transmit_receive = λ _ _ _ n. (esp_ok, [], n);
  i2c_master_receive = λ _ _ n. (esp_ok, 24 ∷ [], n);
  i2c_master_probe = λ _ n. (esp_ok, n);
  i2c_master_bus_add_device = λ _ _ n. (esp_ok, 9, n);
  i2c_master_bus_rm_device = λ _ n. (esp_ok, n);
  esp_timer_get_time = λ n. (0, n);
  config_tick_rate_hz = 100;
}

heap_os-HeapLaws : HeapLaws heap_os (λ n. n)
heap_os-HeapLaws = record {
  calloc_some = λ w e. omega arith;
  calloc_none = λ w e. cc;
  free_one = λ w. refl;
  clock_keeps = λ w. refl;
  mutex_keeps = λ w. refl;
}

ready_bus-BusHeapLaws : BusHeapLaws heap_os ready_bus (λ n. n)
ready_bus-BusHeapLaws = record {
  transmit_keeps = λ dev tx w. refl;
  receive_keeps = λ dev n w. refl;
  probe_keeps = λ a w. refl;
  add_keeps = λ a hz w. refl;
  rm_keeps = λ dev w. refl;
  delay_keeps = λ t w. refl;
}

abbrev config : Config
config = record { device_address = 56; scl_speed_hz = 100000; config_aht_type = aht2x }

live-i2c_ahtxx_init_example :
    let r = i2c_ahtxx_init heap_os ready_bus true (some config) none 5 in r.2 ≡ 5 + blocks_left r.0
live-i2c_ahtxx_init_example =
    live-i2c_ahtxx_init heap_os ready_bus (λ n. n) ready_bus-BusHeapLaws heap_os-HeapLaws config
      none 5

i2c_ahtxx_init-Stored_example :
    let r = i2c_ahtxx_init heap_os ready_bus true (some config) none 5 in Stored none r.0 r.1
i2c_ahtxx_init-Stored_example = i2c_ahtxx_init-Stored heap_os ready_bus config none 5
