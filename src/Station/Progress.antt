-- ===== src/Station/Progress.antt =====
-- What the publishing task achieves once it runs.
use mathlib.Core.List.{append_assoc, append-nil}
use esp32_s3_i2c_mqtt_machba.Base.{
  ℕ, zero, suc, Bool-cases, ◌≡◌, ◌∙◌, refl, sym, inl, inr, true, none, List, [], ◌∷◌, ◌++◌, map,
  length,
}
use esp32_s3_i2c_mqtt_machba.Float.{Fp}
use esp32_s3_i2c_mqtt_machba.Station.Sample.{Parameter}
use esp32_s3_i2c_mqtt_machba.Station.Queue.{QueueService, QueueLaws}
use esp32_s3_i2c_mqtt_machba.Station.Tasks.{
  Readings, Statement, set_timestamp, set_value, send, Station, execute, sample_next, wake, receive,
  publish, samples, receives, publishes, Run, start, step,
}
use esp32_s3_i2c_mqtt_machba.Station.Rounds.{IsDrained, report, wake-OnTime}
use esp32_s3_i2c_mqtt_machba.Station.Delivery.{Run-OnTime}

module _ {F D Q : Type 0} (fp : Fp F D) (service : QueueService Q) where
  -- A pass of the publishing loop.
  unfoldable pub publishing_pass : Station F Q → Station F Q
  publishing_pass s = let s' = receive fp service s in publish fp service s'.received s'

  unfoldable pub publishing_passes : ℕ → Station F Q → Station F Q
  publishing_passes zero s = s
  publishing_passes (suc n) s = publishing_passes n (publishing_pass s)

  -- All the statements of a round, without an interruption.
  unfoldable pub execute_all : List (Statement F) → Station F Q → Station F Q
  execute_all [] s = s
  execute_all (c ∷ rest) s = execute_all rest (execute fp service c (record s { left = rest }))

  module _ (contents : Q → List Parameter) (laws : QueueLaws service contents) where
    pass-publishes :
        (p : Parameter) (ps : List Parameter) (s : Station F Q)
        → s.mqtt_connected ≡ true
        → contents s.queue ≡ p ∷ ps
        → let t = publishing_pass s in
          (t ≡ record s {
            queue = (service.x_queue_receive s.queue).1;
            received = none;
            published = s.published ++ s.store p ∷ [];
          })
          × (contents (service.x_queue_receive s.queue).1 ≡ ps)
    unfolding publishing_pass receive publish
    pass-publishes p ps s on some_queued =
        let (oldest, others) = laws.receive_oldest s.queue in
        (rw (oldest, some_queued) (rw on refl), rw (others, some_queued))

    -- With a link, as many passes of the publishing loop as there are items in the queue empty it
    -- and publish for each item, in order, the sample that its object holds.
    pub publishing_passes-drains :
        (ps : List Parameter) (s : Station F Q)
        → s.mqtt_connected ≡ true
        → s.received ≡ none
        → contents s.queue ≡ ps
        → let t = publishing_passes (length ps) s in
          (contents t.queue ≡ [])
          × (t.received ≡ none)
          × (t.published ≡ s.published ++ map s.store ps)
          × (t.left ≡ s.left)
    unfolding publishing_passes
    publishing_passes-drains [] s on empty queued =
        (queued, empty, sym (append-nil s.published), refl)
    publishing_passes-drains (p ∷ ps) s on empty queued =
        let (one, others) = pass-publishes p ps s on queued in
        let s' : Station F Q = record s {
          queue = (service.x_queue_receive s.queue).1;
          received = none;
          published = s.published ++ s.store p ∷ [];
        } in
        let (none_queued, none_held, all, same) = publishing_passes-drains ps s' on refl others in
        rw (publishing_passes, one)
          (
            none_queued,
            none_held,
            all ∙ append_assoc s.published (s.store p ∷ []) (map s.store ps),
            same,
          )

    execute_keeps :
        (c : Statement F) (s : Station F Q)
        → let t = execute fp service c s in
          (t.left ≡ s.left) × (t.received ≡ s.received) × (t.mqtt_connected ≡ s.mqtt_connected)
    unfolding execute
    execute_keeps (set_timestamp p a) s = (refl, refl, refl)
    execute_keeps (set_value p a) s = (refl, refl, refl)
    execute_keeps (send p) s = elim (Bool-cases (service.x_queue_send p s.queue).0) [
      | inl e ↦ rw e (refl, refl, refl)
      | inr e ↦ rw e (refl, refl, refl)
    ]

    execute_all_keeps :
        (left : List (Statement F)) (s : Station F Q)
        → s.left ≡ left
        → let t = execute_all left s in
          (t.left ≡ []) × (t.received ≡ s.received) × (t.mqtt_connected ≡ s.mqtt_connected)
    unfolding execute_all
    execute_all_keeps [] s e = (e, refl, refl)
    execute_all_keeps (c ∷ rest) s e =
        let s' : Station F Q = record s { left = rest } in
        let (first, item, link) = execute_keeps c s' in
        let (last, item', link') = execute_all_keeps rest (execute fp service c s') first in
        (last, item' ∙ item, link' ∙ link)

    execute_all-Run :
        (w : Station F Q) (left : List (Statement F)) (s : Station F Q)
        → s.left ≡ left
        → Run fp service w s
        → Run fp service w (execute_all left s)
    unfolding execute_all sample_next
    execute_all-Run w [] s e run = run
    execute_all-Run w (c ∷ rest) s e run =
        let s' : Station F Q = record s { left = rest } in
        let one : sample_next fp service s.left s ≡ execute fp service c s' = rw e in
        let run' : Run fp service w (execute fp service c s') = rw (← one) (step run samples) in
        execute_all-Run w rest (execute fp service c s') (execute_keeps c s').0 run'

    wake_keeps :
        (event : ℕ) (r : Readings F) (s : Station F Q)
        → let t = wake fp service event r s in
          (t.received ≡ s.received) × (t.mqtt_connected ≡ s.mqtt_connected)
    unfolding wake
    wake_keeps event r s = elim (Bool-cases s.mqtt_connected) [
      | inl e ↦ rw e (refl, refl)
      | inr e ↦ rw e (refl, refl)
    ]

    -- With a link and the rounds before published, a round of the sampling task followed by as many
    -- passes of the publishing loop as the queue then holds items leaves nothing to publish, and
    -- what has been published is the report of the round.
    pub round-delivered :
        (event : ℕ) (r : Readings F) (s : Station F Q)
        → s.mqtt_connected ≡ true
        → IsDrained fp service contents laws s
        → let w = wake fp service event r s in
          let u = execute_all w.left w in
          let t = publishing_passes (length (contents u.queue)) u in
          IsDrained fp service contents laws t
          × (t.published ≡ s.published ++ report fp s.store event r)
    round-delivered event r s on drained =
        let w = wake fp service event r s in
        let u = execute_all w.left w in
        let (item, link) = wake_keeps event r s in
        let (last, item', link') = execute_all_keeps w.left w refl in
        let v =
          Run-OnTime fp service contents laws (s.published ++ report fp s.store event r) s.refused w
            u (execute_all-Run w w.left w refl start)
            (wake-OnTime fp service contents laws event r s on drained) in
        let empty = item' ∙ item ∙ drained.none_held in
        let (none_queued, none_held, all, same) =
          publishing_passes-drains (contents u.queue) u v.connected empty refl in
        let whole = rw (empty, last, append-nil) at v.owes.owed in
        (
          record { none_left = same ∙ last; none_held = none_held; none_queued = none_queued },
          all ∙ whole,
        )

    pass-Run :
        (w s : Station F Q)
        → s.received ≡ none
        → Run fp service w s
        → Run fp service w (publishing_pass s)
    unfolding publishing_pass
    pass-Run w s empty run = step (step run (receives empty)) publishes

    passes-Run :
        (w : Station F Q) (ps : List Parameter) (s : Station F Q)
        → s.mqtt_connected ≡ true
        → s.received ≡ none
        → contents s.queue ≡ ps
        → Run fp service w s
        → Run fp service w (publishing_passes (length ps) s)
    unfolding publishing_passes
    passes-Run w [] s on empty queued run = run
    passes-Run w (p ∷ ps) s on empty queued run =
        let (one, others) = pass-publishes p ps s on queued in
        let s' : Station F Q = record s {
          queue = (service.x_queue_receive s.queue).1;
          received = none;
          published = s.published ++ s.store p ∷ [];
        } in
        let run' : Run fp service w s' = rw (← one) (pass-Run w s empty run) in
        rw (publishing_passes, one) (passes-Run w ps s' on refl others run')

    -- The schedule of `round-delivered` is a run of the two tasks.
    pub round-Run :
        (event : ℕ) (r : Readings F) (s : Station F Q)
        → s.mqtt_connected ≡ true
        → IsDrained fp service contents laws s
        → let w = wake fp service event r s in
          let u = execute_all w.left w in
          Run fp service w (publishing_passes (length (contents u.queue)) u)
    round-Run event r s on drained =
        let w = wake fp service event r s in
        let u = execute_all w.left w in
        let (item, link) = wake_keeps event r s in
        let (_, item', link') = execute_all_keeps w.left w refl in
        passes-Run w (contents u.queue) u (link' ∙ link ∙ on) (item' ∙ item ∙ drained.none_held)
          refl (execute_all-Run w w.left w refl start)
