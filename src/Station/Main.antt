-- ===== src/Station/Main.antt =====
-- src/main.c: `app_main`, which starts the services one after another and then the tasks.
use esp32_s3_i2c_mqtt_machba.Base.{ℕ, Option, none, some, List, codes}
use esp32_s3_i2c_mqtt_machba.Esp.{EspErr, esp_ok, Os}
use esp32_s3_i2c_mqtt_machba.Wifi.Sntp.{Sntp}
use esp32_s3_i2c_mqtt_machba.Wifi.Start as WifiStart
use esp32_s3_i2c_mqtt_machba.Wifi.Start.{Net, wifi_start}
use esp32_s3_i2c_mqtt_machba.Wifi.Timezone.{Zone, sntp_start}
use esp32_s3_i2c_mqtt_machba.Mqtt.Link.{Client, Link, mqtt_start}
use esp32_s3_i2c_mqtt_machba.Station.System.{Nvs, SystemState, init_system_state}

-- The tasks, by their functions.
pub data TaskCode : Type 0 where
  sample_sensor_task publish_sensor_task heap_size_task : TaskCode

-- The variables of the program that the start sets, and the world.
pub record Program (W : Type 0) : Type 0 where
  pub net : Net
  pub link : Link
  pub s_system_state : Option SystemState
  pub world : W

-- The time zone of the station.
abbrev pub timezone : List ℕ
timezone = codes "AST4ADT,M3.2.0,M11.1.0"

-- `ESP_ERROR_CHECK`: `none` is an abort.
abbrev pub check : {A : Type 0} → EspErr → A → Option A
check esp_ok a = some a
check _ a = none

-- One part of the start after another.
infixl 5 ◌>=>◌
unfoldable pub ◌>=>◌ : {A : Type 0} → (A → Option A) → (A → Option A) → A → Option A
◌>=>◌ f g p = elim (f p) [ none ↦ none | some q ↦ g q ]

module _ {W : Type 0} (os : Os W) (nvs : Nvs W) (station : WifiStart.Station W) (sntp : Sntp W)
    (zone : Zone W) (client : Client W) (nvs_init : W → EspErr × W)
    (x_task_create : TaskCode → W → W) where
  -- The tasks, in the order of the source.
  abbrev pub create_tasks : W → W
  create_tasks w =
      x_task_create heap_size_task
        (x_task_create publish_sensor_task (x_task_create sample_sensor_task w))

  unfoldable pub start_nvs : Program W → Option (Program W)
  start_nvs p = let (e, w) = nvs_init p.world in check e (record p { world = w })

  unfoldable pub start_wifi : Program W → Option (Program W)
  start_wifi p =
      let (e, n, w) = wifi_start station (p.net, p.world) in
      check e (record p { net = n; world = w })

  unfoldable pub start_time : Program W → Option (Program W)
  start_time p =
      let (e, w) = sntp_start os sntp zone (some timezone) p.world in
      check e (record p { world = w })

  -- A fault if there is no memory.
  unfoldable pub start_state : Program W → Option (Program W)
  start_state p = elim (init_system_state os nvs p.world) [
    | none ↦ none
    | some r ↦ some (record p { s_system_state = some r.0; world = r.1 })
  ]

  unfoldable pub start_mqtt : Program W → Option (Program W)
  start_mqtt p =
      let (e, l, w) = mqtt_start client p.link p.world in check e (record p { link = l; world = w })

  -- Everything that comes before the tasks.
  unfoldable pub start_services : Program W → Option (Program W)
  start_services = start_nvs >=> start_wifi >=> start_time >=> start_state >=> start_mqtt

  unfoldable pub start_tasks : Program W → Option (Program W)
  start_tasks p = some (record p { world = create_tasks p.world })

  -- `app_main`; `none` is an abort or a fault before the tasks are there.
  unfoldable pub app_main : Program W → Option (Program W)
  app_main = start_services >=> start_tasks
