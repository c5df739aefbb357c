-- ===== src/Station/Operation.antt =====
-- src/main.c: the sampling task from its set-up on.
use mathlib.Core.Path.{subst}
use esp32_s3_i2c_mqtt_machba.Base.{ℕ, ◌^◌, ◌≡◌, refl, true, false, none, some, List, [], map, arith}
use esp32_s3_i2c_mqtt_machba.Esp.{Os, Tm}
use esp32_s3_i2c_mqtt_machba.Float.{Fp}
use esp32_s3_i2c_mqtt_machba.I2c.{Bus}
use esp32_s3_i2c_mqtt_machba.Interval.Normalize.{normalize_interval_to_msec}
use esp32_s3_i2c_mqtt_machba.Interval.Pace.{
  ClockLaws, IsScheduled, HasBegun-IsScheduled, period_msec,
}
use esp32_s3_i2c_mqtt_machba.Station.Sample.{Parameter}
use esp32_s3_i2c_mqtt_machba.Station.Queue.{QueueService, QueueLaws}
use esp32_s3_i2c_mqtt_machba.Station.Tasks.{Readings, Station}
use esp32_s3_i2c_mqtt_machba.Station.Cycle.{Loop}
use esp32_s3_i2c_mqtt_machba.Station.Setup.{
  Services, Variables, Task, tii_sampling_cfg, set_up_task,
}
use esp32_s3_i2c_mqtt_machba.Station.Ready.{Ensures, IsReady, set_up_task-Ensures}
use esp32_s3_i2c_mqtt_machba.Station.Log.{observed, log, AreApart, EventsBelow}
use esp32_s3_i2c_mqtt_machba.Station.Passes.{Passes, KeepsUp}
use esp32_s3_i2c_mqtt_machba.Station.Published.{Passes-published}
use esp32_s3_i2c_mqtt_machba.Station.Pace.{Passes-AreApart}

-- The state of the loop when the set-up ends, when `epoch_timestamp` holds `stale`: the variables
-- for the codes are as they were.
abbrev pub loop_of : {F D W : Type 0} → Variables F D → Task F D → ℕ → W → Loop F D W
loop_of v t stale w = record {
  tii_sampling_hdl = some t.tii_sampling;
  epoch_timestamp = stale;
  sensors = record {
    ahtxx = some t.ahtxx;
    bmp280 = some t.bmp280;
    ta_trend = some t.ta_trend;
    pa_trend = some t.pa_trend;
    pa_tendency = some t.pa_tendency;
    ta_trend_code = v.ta_trend_code;
    pa_trend_code = v.pa_trend_code;
    pa_tendency_code = v.pa_tendency_code;
    pa_change = (t.samples Parameter.atmospheric_pressure_change).value;
    world = w;
  };
}

-- The state of the two tasks at that point, with a link.
abbrev pub tasks_of : {F D Q : Type 0} → Task F D → Q → Station F Q
tasks_of t queue = record {
  mqtt_connected = true;
  store = t.samples;
  queue = queue;
  left = [];
  received = none;
  published = [];
  accepted = [];
  refused = [];
  restarted = false;
}

module _ {F D W : Type 0} (fp : Fp F D) (os : Os W) (bus : Bus W) (services : Services W)
    (next_tm : Tm) where
  pub ready :
      (v : Variables F D) (w w₁ : W) (t : Task F D)
      → v.tii_sampling_hdl ≡ none
      → v.ta_trend_hdl ≡ none
      → v.pa_trend_hdl ≡ none
      → v.pa_tendency_hdl ≡ none
      → set_up_task fp os bus services next_tm v w ≡ some (t, w₁)
      → IsReady fp os bus services next_tm t
  ready v w w₁ t tii ta pa tendency done =
      subst (Ensures (IsReady fp os bus services next_tm)) done
        (set_up_task-Ensures fp os bus services next_tm v w tii ta pa tendency)

  pub sampling-IsScheduled :
      (t : Task F D)
      → ClockLaws os next_tm
      → IsReady fp os bus services next_tm t
      → IsScheduled t.tii_sampling × (period_msec t.tii_sampling ≡ 6000)
  unfolding normalize_interval_to_msec
  sampling-IsScheduled t clock ready =
      let i = ready.sampling in
      (
        HasBegun-IsScheduled os next_tm tii_sampling_cfg t.tii_sampling clock i.in_seconds i.period
            i.offset (omega arith) i.valid.accepted i.begun,
        rw (i.in_seconds, i.period) refl,
      )

  module _ {Q : Type 0} (service : QueueService Q) (contents : Q → List Parameter)
      (laws : QueueLaws service contents) (fuel : ℕ) where
    -- The station from its set-up on, as long as the publishing task keeps up, that is, if each
    -- round has been published when the next one starts, and the last one at the end: in any number
    -- of passes that have reported, whatever the interleaving of the two tasks within a round, what
    -- is published is exactly the log of what the devices have reported, with the codes and the
    -- change of pressure computed from all the readings since the set-up over windows of one hour
    -- and of three; and the events of the passes, by which the samples are stamped, are at least 6
    -- seconds apart. The handles are null before the set-up, the queue is empty after it, there is
    -- a link, the clock can be read and does not go back, and all times are below 2 ^ 62
    -- milliseconds.
    pub station-published :
        (v : Variables F D) (w w₁ : W) (t : Task F D) (queue : Q) (stale : ℕ)
        (past : List (ℕ × Readings F)) (l' : Loop F D W) (s' : Station F Q)
        → v.tii_sampling_hdl ≡ none
        → v.ta_trend_hdl ≡ none
        → v.pa_trend_hdl ≡ none
        → v.pa_tendency_hdl ≡ none
        → set_up_task fp os bus services next_tm v w ≡ some (t, w₁)
        → contents queue ≡ []
        → ClockLaws os next_tm
        → EventsBelow (2 ^ 62) past
        → (passes : Passes fp os bus next_tm service fuel l' s' past
            (loop_of v t stale w₁)
            (tasks_of t queue))
        → KeepsUp fp os bus next_tm service contents laws fuel passes
        → (s'.published
            ≡ log fp t.ta_trend.critical_t t.pa_trend.critical_t 600 1800 [] [] (map observed past))
          × AreApart 6000 t.tii_sampling.epoch_timestamp past
    station-published v w w₁ t queue stale past l' s' tii ta pa tendency done empty clock below
          passes up =
        let r = ready v w w₁ t tii ta pa tendency done in
        let (is_set, six_seconds) = sampling-IsScheduled t clock r in
        (
          Passes-published fp os bus next_tm 600 1800 t.ta_trend t.pa_trend t.pa_tendency r.fresh_ta
              r.fresh_pa r.fresh_tendency service contents laws fuel l' s' [] [] past
              (loop_of v t stale w₁) (tasks_of t queue)
              (record { temperatures = refl; pressures = refl; tendencies = refl }) refl
              (record { none_left = refl; none_held = refl; none_queued = empty }) r.identified
              passes up,
          rw (← six_seconds) (
              Passes-AreApart fp os bus next_tm service fuel clock l' s' past (loop_of v t stale w₁)
                (tasks_of t queue) t.tii_sampling refl is_set below passes),
        )
