-- ===== src/Station/Queue.antt =====
-- The queue of FreeRTOS between the two tasks of src/main.c, as the calls that they make of it.
use esp32_s3_i2c_mqtt_machba.Base.{
  ℕ, ◌≤◌, ◌<◌, ◌≡◌, Bool, true, false, Option, none, some, List, [], ◌∷◌, ◌++◌, length, drop,
}
use esp32_s3_i2c_mqtt_machba.Station.Sample.{Parameter}

-- `MQTT_PUB_ENV_QUEUE_SIZE`
abbrev pub mqtt_pub_env_queue_size : ℕ
mqtt_pub_env_queue_size = 30

-- The calls over a type `Q` for the queue. An item is a pointer to a sample, hence a parameter; a
-- receive that times out returns `none`.
pub record QueueService (Q : Type 0) : Type 0 where
  pub x_queue_send : Parameter → Q → Bool × Q
  pub x_queue_receive : Q → Option Parameter × Q

abbrev pub head? : List Parameter → Option Parameter
head? [] = none
head? (p ∷ ps) = some p

-- A queue holds a number of items at most. A send that does not wait appends one or reports that
-- there is no room; a receive takes the oldest one.
pub record QueueLaws {Q : Type 0} (service : QueueService Q) (contents : Q → List Parameter)
    : Type 0 where
  pub send_room :
      (p : Parameter) (q : Q)
      → length (contents q) < mqtt_pub_env_queue_size
      → ((service.x_queue_send p q).0 ≡ true)
        × (contents (service.x_queue_send p q).1 ≡ contents q ++ p ∷ [])
  pub send_full :
      (p : Parameter) (q : Q)
      → mqtt_pub_env_queue_size ≤ length (contents q)
      → ((service.x_queue_send p q).0 ≡ false)
        × (contents (service.x_queue_send p q).1 ≡ contents q)
  pub receive_oldest :
      (q : Q)
      → ((service.x_queue_receive q).0 ≡ head? (contents q))
        × (contents (service.x_queue_receive q).1 ≡ drop 1 (contents q))
