-- ===== src/Station/Started.antt =====
-- What has happened when `app_main` has started the tasks.
use esp32_s3_i2c_mqtt_machba.Base.{Option, none, some, ◌≡◌, ◌∙◌, inl, inr, refl, ap}
use esp32_s3_i2c_mqtt_machba.Esp.{EspErr, esp_ok, Os}
use esp32_s3_i2c_mqtt_machba.Wifi.Sntp.{Sntp}
use esp32_s3_i2c_mqtt_machba.Wifi.Start as WifiStart
use esp32_s3_i2c_mqtt_machba.Wifi.Start.{Net, wifi_start}
use esp32_s3_i2c_mqtt_machba.Wifi.Outcomes.{WaitLaws, IsLinked, wifi_start-Returns}
use esp32_s3_i2c_mqtt_machba.Wifi.Timezone.{Zone, sntp_start}
use esp32_s3_i2c_mqtt_machba.Mqtt.Link.{Client, mqtt_start}
use esp32_s3_i2c_mqtt_machba.Station.System.{Nvs, SystemState, init_system_state}
use esp32_s3_i2c_mqtt_machba.Station.Main.{
  TaskCode, Program, create_tasks, check, ◌>=>◌, app_main, start_tasks, start_services, start_nvs,
  start_wifi, start_time, start_state, start_mqtt, timezone,
}

check-some : {A : Type 0} (e : EspErr) (a b : A) → check e a ≡ some b → (e ≡ esp_ok) × (a ≡ b)
check-some esp_ok a b h = (refl, cc h)
check-some _ a b h = cc

some-injective : {A : Type 0} {a b : A} → some a ≡ some b → a ≡ b
some-injective h = cc h

-- A chain that ends has gone through a state between its two parts.
chain-some :
    {A : Type 0} (f g : A → Option A) (p q : A)
    → (f >=> g) p ≡ some q
    → (m : A) × (f p ≡ some m) × (g m ≡ some q)
unfolding ◌>=>◌
chain-some f g p q h = between (f p) h
  where
    between :
        {A : Type 0} {g : A → Option A} {q : A} (r : Option A)
        → elim r [ none ↦ none | some m ↦ g m ] ≡ some q
        → (m : A) × (r ≡ some m) × (g m ≡ some q)
    between none h = cc
    between (some m) h = (m, refl, h)

module _ {W : Type 0} (os : Os W) (nvs : Nvs W) (station : WifiStart.Station W) (sntp : Sntp W)
    (zone : Zone W) (client : Client W) (nvs_init : W → EspErr × W)
    (x_task_create : TaskCode → W → W) where
  -- The calls that have succeeded between two states of the program, in their order, with the world
  -- after each of them.
  pub record Started (p q : Program W) : Type 0 where
    pub after_nvs : W
    pub after_wifi : W
    pub after_sntp : W
    pub after_state : W
    pub after_mqtt : W
    pub system_state : SystemState
    pub nvs_ended : nvs_init p.world ≡ (esp_ok, after_nvs)
    pub wifi_ended : wifi_start station (p.net, after_nvs) ≡ (esp_ok, q.net, after_wifi)
    pub linked : IsLinked station q.net after_wifi
    pub sntp_ended : sntp_start os sntp zone (some timezone) after_wifi ≡ (esp_ok, after_sntp)
    pub state_ended : init_system_state os nvs after_sntp ≡ some (system_state, after_state)
    pub state_set : q.s_system_state ≡ some system_state
    pub mqtt_ended : mqtt_start client p.link after_state ≡ (esp_ok, q.link, after_mqtt)
    pub tasks_created :
        q.world
        ≡ x_task_create TaskCode.heap_size_task (
            x_task_create TaskCode.publish_sensor_task
              (x_task_create TaskCode.sample_sensor_task after_mqtt))

  start_nvs-some :
      (p q : Program W)
      → start_nvs os nvs station sntp zone client nvs_init x_task_create p ≡ some q
      → (nvs_init p.world ≡ (esp_ok, q.world)) × (q.net ≡ p.net) × (q.link ≡ p.link)
  unfolding start_nvs
  start_nvs-some p q h =
      let r = nvs_init p.world in
      let (ok, same) = check-some r.0 (record p { world = r.1 }) q h in
      rw (← same) (ap (λ e. (e, r.1)) ok, refl, refl)

  start_wifi-some :
      (p q : Program W)
      → WaitLaws station
      → start_wifi os nvs station sntp zone client nvs_init x_task_create p ≡ some q
      → (wifi_start station (p.net, p.world) ≡ (esp_ok, q.net, q.world))
        × IsLinked station q.net q.world
        × (q.link ≡ p.link)
  unfolding start_wifi
  start_wifi-some p q laws h =
      let r = wifi_start station (p.net, p.world) in
      let (ok, same) = check-some r.0 (record p { net = r.1; world = r.2 }) q h in
      elim (wifi_start-Returns station laws p.net p.world) [
        | inl failed ↦ absurd (cc (ok, failed))
        | inr done ↦ rw (← same) (ap (λ e. (e, r.1, r.2)) ok, done.1, refl)
      ]

  start_time-some :
      (p q : Program W)
      → start_time os nvs station sntp zone client nvs_init x_task_create p ≡ some q
      → (sntp_start os sntp zone (some timezone) p.world ≡ (esp_ok, q.world))
        × (q.net ≡ p.net)
        × (q.link ≡ p.link)
  unfolding start_time
  start_time-some p q h =
      let r = sntp_start os sntp zone (some timezone) p.world in
      let (ok, same) = check-some r.0 (record p { world = r.1 }) q h in
      rw (← same) (ap (λ e. (e, r.1)) ok, refl, refl)

  start_state-some :
      (p q : Program W)
      → start_state os nvs station sntp zone client nvs_init x_task_create p ≡ some q
      → (s : SystemState) × (init_system_state os nvs p.world ≡ some (s, q.world))
        × (q.s_system_state ≡ some s)
        × (q.net ≡ p.net)
        × (q.link ≡ p.link)
  unfolding start_state
  start_state-some p q h = from (init_system_state os nvs p.world) h
    where
      from :
          (r : Option (SystemState × W))
          → elim r [
            | none ↦ none
            | some r ↦ some (record p { s_system_state = some r.0; world = r.1 })
          ]
            ≡ some q
          → (s : SystemState) × (r ≡ some (s, q.world))
            × (q.s_system_state ≡ some s)
            × (q.net ≡ p.net)
            × (q.link ≡ p.link)
      from none h = cc
      from (some (s, w)) h =
          let same : record p { s_system_state = some s; world = w } ≡ q = cc h in
          rw (← same) (s, refl, refl, refl, refl)

  start_mqtt-some :
      (p q : Program W)
      → start_mqtt os nvs station sntp zone client nvs_init x_task_create p ≡ some q
      → (mqtt_start client p.link p.world ≡ (esp_ok, q.link, q.world))
        × (q.net ≡ p.net)
        × (q.s_system_state ≡ p.s_system_state)
  unfolding start_mqtt
  start_mqtt-some p q h =
      let r = mqtt_start client p.link p.world in
      let (ok, same) = check-some r.0 (record p { link = r.1; world = r.2 }) q h in
      rw (← same) (ap (λ e. (e, r.1, r.2)) ok, refl, refl)

  start_tasks-some :
      (p q : Program W)
      → start_tasks os nvs station sntp zone client nvs_init x_task_create p ≡ some q
      → (q.net ≡ p.net)
        × (q.link ≡ p.link)
        × (q.s_system_state ≡ p.s_system_state)
        × (q.world ≡ create_tasks os nvs station sntp zone client nvs_init x_task_create p.world)
  unfolding start_tasks
  start_tasks-some p q h = rw (← some-injective h) (refl, refl, refl, refl)

  stages-Started :
      (p p₁ p₂ p₃ p₄ p₅ q : Program W)
      → WaitLaws station
      → start_nvs os nvs station sntp zone client nvs_init x_task_create p ≡ some p₁
      → start_wifi os nvs station sntp zone client nvs_init x_task_create p₁ ≡ some p₂
      → start_time os nvs station sntp zone client nvs_init x_task_create p₂ ≡ some p₃
      → start_state os nvs station sntp zone client nvs_init x_task_create p₃ ≡ some p₄
      → start_mqtt os nvs station sntp zone client nvs_init x_task_create p₄ ≡ some p₅
      → start_tasks os nvs station sntp zone client nvs_init x_task_create p₅ ≡ some q
      → Started p q
  stages-Started p p₁ p₂ p₃ p₄ p₅ q laws flash wifi time state mqtt tasks =
      let (nvs_ended, net₁, link₁) = start_nvs-some p p₁ flash in
      let (wifi_ended, linked, link₂) = start_wifi-some p₁ p₂ laws wifi in
      let (sntp_ended, net₃, link₃) = start_time-some p₂ p₃ time in
      let (s, state_ended, kept, net₄, link₄) = start_state-some p₃ p₄ state in
      let (mqtt_ended, net₅, state₅) = start_mqtt-some p₄ p₅ mqtt in
      let (net₆, link₆, state₆, world₆) = start_tasks-some p₅ q tasks in
      let link : p₄.link ≡ p.link = link₄ ∙ link₃ ∙ link₂ ∙ link₁ in
      let net : q.net ≡ p₂.net = net₆ ∙ net₅ ∙ net₄ ∙ net₃ in
      record {
        after_nvs = p₁.world;
        after_wifi = p₂.world;
        after_sntp = p₃.world;
        after_state = p₄.world;
        after_mqtt = p₅.world;
        system_state = s;
        nvs_ended = nvs_ended;
        wifi_ended = rw (net, ← net₁) wifi_ended;
        linked = rw net linked;
        sntp_ended = sntp_ended;
        state_ended = state_ended;
        state_set = state₆ ∙ state₅ ∙ kept;
        mqtt_ended = rw (link₆, ← link) mqtt_ended;
        tasks_created = world₆;
      }

  -- If `app_main` starts the tasks, then the calls before them have succeeded one after another:
  -- the flash storage, the Wi-Fi station, which has a link, the time of day in the time zone of the
  -- program, the record of the system, which is set, and the MQTT client, whose start has returned
  -- ESP_OK and has set the variables of the link as they are. The tasks are created after that: the
  -- sampling task, the publishing task and the task that watches the heap.
  pub app_main-Started :
      (p q : Program W)
      → WaitLaws station
      → app_main os nvs station sntp zone client nvs_init x_task_create p ≡ some q
      → Started p q
  unfolding app_main start_services
  app_main-Started p q laws done =
      let (p₅, services, tasks) = chain-some _ _ _ _ done in
      let (p₄, ended₄, mqtt) = chain-some _ _ _ _ services in
      let (p₃, ended₃, state) = chain-some _ _ _ _ ended₄ in
      let (p₂, ended₂, time) = chain-some _ _ _ _ ended₃ in
      let (p₁, flash, wifi) = chain-some _ _ _ _ ended₂ in
      stages-Started p p₁ p₂ p₃ p₄ p₅ q laws flash wifi time state mqtt tasks
