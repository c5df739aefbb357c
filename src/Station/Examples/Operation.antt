-- ===== src/Station/Examples/Operation.antt =====
-- A pass of the station after its set-up in a world that never changes, and the theorem on it.
use esp32_s3_i2c_mqtt_machba.Base.{
  ⊤, ℕ, ◌^◌, ◌<◌, ◌≡◌, refl, ap, true, Option, some, List, [], ◌∷◌, length, map, arith,
}
use esp32_s3_i2c_mqtt_machba.Base.Int.{ℤ}
use esp32_s3_i2c_mqtt_machba.Float.Whole.{whole}
use esp32_s3_i2c_mqtt_machba.I2c.Action.{ret}
use esp32_s3_i2c_mqtt_machba.Interval.Event.{
  timeval_msec, set_epoch_timestamp_event, first_event, start_tm, advance, not_ahead, init_next_tm,
  exceed_next_tm,
}
use esp32_s3_i2c_mqtt_machba.Station.Sample.{Parameter}
use esp32_s3_i2c_mqtt_machba.Station.Tasks.{Readings, Station, wake}
use esp32_s3_i2c_mqtt_machba.Station.Cycle.{Loop, sample_pass}
use esp32_s3_i2c_mqtt_machba.Station.Setup.{Task}
use esp32_s3_i2c_mqtt_machba.Station.Progress.{
  execute_all, publishing_passes, round-delivered, round-Run,
}
use esp32_s3_i2c_mqtt_machba.Station.Log.{observed, log, AreApart}
use esp32_s3_i2c_mqtt_machba.Station.Passes.{Passes, KeepsUp, end, pass, sample_pass-reported}
use esp32_s3_i2c_mqtt_machba.Station.Operation.{
  loop_of, tasks_of, ready, sampling-IsScheduled, station-published,
}
use esp32_s3_i2c_mqtt_machba.Station.Ready.{IsReady}
use esp32_s3_i2c_mqtt_machba.Station.Rounds.{IsDrained}
use esp32_s3_i2c_mqtt_machba.Interval.Normalize.{normalize_interval_to_msec}
use esp32_s3_i2c_mqtt_machba.Interval.Handle.{time_into_interval_delay}
use esp32_s3_i2c_mqtt_machba.Interval.Wake.{delay_until_ahead, delay-get_last_event}
use esp32_s3_i2c_mqtt_machba.Station.Examples.SetUp.{stale_tm, null_variables}
use esp32_s3_i2c_mqtt_machba.Station.Examples.Tasks.{list_queue, list_queue-QueueLaws}
use esp32_s3_i2c_mqtt_machba.Station.Examples.Still.{
  still_os, still_bus, still_services, still-ClockLaws, Answer, ready_state, pass_reports,
  from_report,
}

abbrev first_task : Task (Option ℤ) (Option ℤ)
first_task = ready_state.0.0

first_task-IsReady : IsReady whole still_os still_bus still_services stale_tm first_task
first_task-IsReady =
    ready whole still_os still_bus still_services stale_tm null_variables tt ready_state.0.1
      first_task refl refl refl refl ready_state.1

first_event_lem : first_task.tii_sampling.epoch_timestamp ≡ 1002000
unfolding set_epoch_timestamp_event first_event timeval_msec start_tm advance not_ahead
    normalize_interval_to_msec init_next_tm exceed_next_tm
first_event_lem = first_task-IsReady.sampling.begun.1

abbrev first_pass : Answer
first_pass =
    sample_pass whole still_os still_bus stale_tm 250000 true
      (loop_of null_variables first_task 0 ready_state.0.1)

abbrev reported :
    (x : ℕ × Readings (Option ℤ)) × (l : Loop (Option ℤ) (Option ℤ) ⊤) × (first_pass
      ≡ (ret (some x), l))
reported = from_report first_pass (pass_reports first_task ready_state.0.1)

event_below : reported.0.0 < 2 ^ 62
unfolding timeval_msec
event_below =
    let h = first_task.tii_sampling in
    let w = ready_state.0.1 in
    let l = loop_of null_variables first_task 0 w in
    let (set, _) =
      sampling-IsScheduled whole still_os still_bus still_services stale_tm first_task
        still-ClockLaws first_task-IsReady in
    let (same, _) =
      delay_until_ahead still_os stale_tm h w set.below refl (omega (arith, first_event_lem)) in
    let d = time_into_interval_delay still_os stale_tm (some h) w in
    let (_, _, last) =
      delay-get_last_event still_os stale_tm h w d.2 0 (rw same set.accepted)
        (rw same (omega (arith, set.set))) (rw same set.below) in
    let (_, event, _) =
      sample_pass-reported whole still_os still_bus stale_tm 250000 l reported.1 reported.0.0
        reported.0.1 reported.2 in
    omega (arith, event, last, ap (λ g. g.epoch_timestamp) same, first_event_lem)

abbrev first_tasks : Station (Option ℤ) (List Parameter)
first_tasks = tasks_of first_task []

abbrev woken : Station (Option ℤ) (List Parameter)
woken = wake whole list_queue reported.0.0 reported.0.1 first_tasks

abbrev sampled_all : Station (Option ℤ) (List Parameter)
sampled_all = execute_all whole list_queue woken.left woken

abbrev drained : Station (Option ℤ) (List Parameter)
drained = publishing_passes whole list_queue (length sampled_all.queue) sampled_all

first_tasks-IsDrained : IsDrained whole list_queue (λ q. q) list_queue-QueueLaws first_tasks
first_tasks-IsDrained = record { none_left = refl; none_held = refl; none_queued = refl }

abbrev one_pass :
    Passes whole still_os still_bus stale_tm list_queue 250000 reported.1 drained
      (reported.0 ∷ [])
      (loop_of null_variables first_task 0 ready_state.0.1)
      first_tasks
one_pass =
    pass reported.0.0 reported.0.1 reported.2
      (round-Run whole list_queue (λ q. q) list_queue-QueueLaws reported.0.0 reported.0.1
        first_tasks refl first_tasks-IsDrained)
      (round-delivered whole list_queue (λ q. q) list_queue-QueueLaws reported.0.0 reported.0.1
        first_tasks refl first_tasks-IsDrained).0.none_left
      end

one_pass-KeepsUp :
    KeepsUp whole still_os still_bus stale_tm list_queue
      (λ q. q)
      list_queue-QueueLaws
      250000
      one_pass
one_pass-KeepsUp = (
  (round-delivered whole list_queue (λ q. q) list_queue-QueueLaws reported.0.0 reported.0.1
      first_tasks refl first_tasks-IsDrained).0,
  tt,
)

station-published_example :
    (drained.published
      ≡ log whole first_task.ta_trend.critical_t first_task.pa_trend.critical_t 600 1800 [] []
          (map observed (reported.0 ∷ [])))
    × AreApart 6000 first_task.tii_sampling.epoch_timestamp (reported.0 ∷ [])
station-published_example =
    station-published whole still_os still_bus still_services stale_tm list_queue (λ q. q)
      list_queue-QueueLaws 250000 null_variables tt ready_state.0.1 first_task [] 0
      (reported.0 ∷ []) reported.1 drained refl refl refl refl ready_state.1 refl still-ClockLaws
      (event_below, tt) one_pass one_pass-KeepsUp
