-- ===== src/Station/Examples/Tasks.antt =====
-- The theorems on the two tasks, with a list for the queue.
use esp32_s3_i2c_mqtt_machba.Base.{
  ℕ, ◌*◌, ◌≤◌, ◌≡◌, refl, true, false, Option, none, some, List, [], ◌∷◌, ◌++◌, decimal, length,
  drop, ltb, lt→ltb, le→ltb_false, if◌then◌else◌, codes, arith,
}
use esp32_s3_i2c_mqtt_machba.Base.Int.{ℤ, pos}
use esp32_s3_i2c_mqtt_machba.Base.Word.{u64}
use esp32_s3_i2c_mqtt_machba.Float.Whole.{whole}
use esp32_s3_i2c_mqtt_machba.Station.Sample.{Parameter, air_temperature, Store, mqtt_net_device_id}
use esp32_s3_i2c_mqtt_machba.Station.Queue.{QueueService, QueueLaws, head?}
use esp32_s3_i2c_mqtt_machba.Station.Tasks.{Readings, Station, wake, Run, Reach, here, wakes}
use esp32_s3_i2c_mqtt_machba.Station.Order.{IsNew, InOrder, Reach-InOrder}
use esp32_s3_i2c_mqtt_machba.Station.Rounds.{IsDrained, report, published-report}
use esp32_s3_i2c_mqtt_machba.Station.Progress.{
  execute_all, publishing_passes, round-delivered, round-Run,
}
use esp32_s3_i2c_mqtt_machba.Station.Lag.{lagging-mixes}
use esp32_s3_i2c_mqtt_machba.Station.Message.{message, message_text, message-fits}

abbrev pub receive_first : List Parameter → Option Parameter × List Parameter
receive_first [] = (none, [])
receive_first (p ∷ q) = (some p, q)

abbrev pub list_queue : QueueService (List Parameter)
list_queue = record {
  x_queue_send = λ p q. if ltb (length q) 30 then (true, q ++ p ∷ []) else (false, q);
  x_queue_receive = receive_first;
}

receive_first_lem :
    (q : List Parameter) → ((receive_first q).0 ≡ head? q) × ((receive_first q).1 ≡ drop 1 q)
receive_first_lem [] = (refl, refl)
receive_first_lem (p ∷ q) = (refl, refl)

pub list_queue-QueueLaws : QueueLaws list_queue (λ q. q)
list_queue-QueueLaws = record {
  send_room = λ p q h. rw (lt→ltb (length q) 30 h) (refl, refl);
  send_full = λ p q h. rw (le→ltb_false (length q) 30 h) (refl, refl);
  receive_oldest = receive_first_lem;
}

abbrev new_store : Store (Option ℤ)
new_store p = record { device_id = mqtt_net_device_id; timestamp = 0; parameter = p; value = none }

abbrev new_station : Station (Option ℤ) (List Parameter)
new_station = record {
  mqtt_connected = true;
  store = new_store;
  queue = [];
  left = [];
  received = none;
  published = [];
  accepted = [];
  refused = [];
  restarted = false;
}

abbrev some_readings : Readings (Option ℤ)
some_readings = record {
  measurements = some (some (pos 21), some (pos 45), some (pos 9));
  temperature_trend = some (pos 1);
  pressure = none;
  pressure_trend = some (pos 1);
  tendency = some (pos 1);
  change = none;
}

new_station-IsDrained : IsDrained whole list_queue (λ q. q) list_queue-QueueLaws new_station
new_station-IsDrained = record { none_left = refl; none_held = refl; none_queued = refl }

new_station-IsNew : IsNew whole list_queue (λ q. q) list_queue-QueueLaws new_station
new_station-IsNew = record {
  new_store = λ p. refl;
  no_statements = refl;
  no_item = refl;
  no_items = refl;
  no_published = refl;
  no_accepted = refl;
  no_restart = refl;
}

abbrev woken : Station (Option ℤ) (List Parameter)
woken = wake whole list_queue 6000 some_readings new_station

abbrev sampled_all : Station (Option ℤ) (List Parameter)
sampled_all = execute_all whole list_queue woken.left woken

abbrev drained : Station (Option ℤ) (List Parameter)
drained = publishing_passes whole list_queue (length sampled_all.queue) sampled_all

round-delivered_example :
    IsDrained whole list_queue (λ q. q) list_queue-QueueLaws drained
    × (drained.published ≡ [] ++ report whole new_store 6000 some_readings)
round-delivered_example =
    round-delivered whole list_queue (λ q. q) list_queue-QueueLaws 6000 some_readings new_station
      refl new_station-IsDrained

drained-IsDrained : IsDrained whole list_queue (λ q. q) list_queue-QueueLaws drained
drained-IsDrained =
    (round-delivered whole list_queue (λ q. q) list_queue-QueueLaws 6000 some_readings new_station
      refl new_station-IsDrained).0

woken-drained : Run whole list_queue woken drained
woken-drained =
    round-Run whole list_queue (λ q. q) list_queue-QueueLaws 6000 some_readings new_station refl
      new_station-IsDrained

published-report_example : drained.published ≡ [] ++ report whole new_store 6000 some_readings
published-report_example =
    published-report whole list_queue (λ q. q) list_queue-QueueLaws 6000 some_readings new_station
      refl new_station-IsDrained drained woken-drained drained-IsDrained

Reach-InOrder_example : InOrder whole list_queue (λ q. q) list_queue-QueueLaws woken
Reach-InOrder_example =
    Reach-InOrder whole list_queue (λ q. q) list_queue-QueueLaws new_station woken new_station-IsNew
      (wakes 6000 some_readings here refl)

abbrev lagging_station : Station (Option ℤ) (List Parameter)
lagging_station = record new_station { received = some air_temperature }

lagging-mixes_example :
    (t : Station (Option ℤ) (List Parameter)) × Reach whole list_queue lagging_station t
    × (t.published
        ≡ [] ++ record (new_store air_temperature) { timestamp = u64 (1000000 * 6000) } ∷ [])
lagging-mixes_example =
    lagging-mixes whole list_queue 6000 some_readings lagging_station refl refl refl

-- A `%f` for values that are small whole numbers or NAN.
abbrev short_format : Option ℤ → List ℕ
short_format v = codes "nan"

message-fits_example :
    (message short_format (new_store air_temperature)
      ≡ message_text short_format (new_store air_temperature))
    × (length (message_text short_format (new_store air_temperature)) ≤ 172)
message-fits_example = message-fits short_format (new_store air_temperature) (λ v. omega arith) refl

message_runs :
    message short_format (new_store air_temperature)
    ≡ codes
        "[\"CA.NB.AWS.01-1000.Air-Temperature\",0,nan,\"Air-Temperature\",\"CA.NB.AWS.01-1000\"]"
unfolding message decimal
message_runs = refl
