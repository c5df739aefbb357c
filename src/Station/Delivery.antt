-- ===== src/Station/Delivery.antt =====
-- What is published of a round of sampling that starts when the rounds before it have been
-- published.
use mathlib.Core.List.{append_assoc}
use esp32_s3_i2c_mqtt_machba.Base.{
  ⊤, ◌<◌, ◌≡◌, refl, ◌⊎◌, inl, inr, true, Option, none, some, List, [], ◌∷◌, ◌++◌, map, length,
  length-append, arith,
}
use esp32_s3_i2c_mqtt_machba.Float.{Fp}
use esp32_s3_i2c_mqtt_machba.Station.Sample.{Parameter, Sample, Store, write_sample}
use esp32_s3_i2c_mqtt_machba.Station.Queue.{QueueService, QueueLaws, mqtt_pub_env_queue_size}
use esp32_s3_i2c_mqtt_machba.Station.Tasks.{
  Statement, set_timestamp, set_value, send, Station, execute, sample_next, receive, publish, Step,
  samples, receives, publishes, Run, start, step,
}
use esp32_s3_i2c_mqtt_machba.Station.Order.{held, held-head?}

module _ {F : Type 0} where
  -- The samples once the statements that are left have been executed.
  abbrev pub final : List (Statement F) → Store F → Store F
  final [] store = store
  final (set_timestamp p t ∷ left) store =
      final left (write_sample p (λ x. record x { timestamp = t }) store)
  final (set_value p a ∷ left) store =
      final left (write_sample p (λ x. record x { value = a }) store)
  final (send p ∷ left) store = final left store

  -- What the statements that are left will send.
  abbrev pub to_send : List (Statement F) → List Parameter
  to_send [] = []
  to_send (send p ∷ left) = p ∷ to_send left
  to_send (_ ∷ left) = to_send left

  -- Nothing but sends.
  abbrev pub SendsOnly : List (Statement F) → Type 0
  SendsOnly [] = ⊤
  SendsOnly (send p ∷ left) = SendsOnly left
  SendsOnly (_ ∷ left) = ⊥

  -- Writes, and then sends.
  abbrev pub WritesFirst : List (Statement F) → Type 0
  WritesFirst [] = ⊤
  WritesFirst (send p ∷ left) = SendsOnly left
  WritesFirst (_ ∷ left) = WritesFirst left

  final-SendsOnly :
      (left : List (Statement F)) (store : Store F) → SendsOnly left → final left store ≡ store
  final-SendsOnly [] store h = refl
  final-SendsOnly (send p ∷ left) store h = final-SendsOnly left store h
  final-SendsOnly (set_timestamp p t ∷ left) store h = absurd h
  final-SendsOnly (set_value p a ∷ left) store h = absurd h

  -- What is published, held, queued and still to be sent makes up the goal; it fits into the queue;
  -- and no sample is written any more while one of them waits.
  pub record Owes (goal published : List (Sample F)) (waiting : List Parameter)
      (left : List (Statement F)) (store : Store F) : Type 0 where
    pub owed : published ++ map (final left store) (waiting ++ to_send left) ≡ goal
    pub room : length (waiting ++ to_send left) < mqtt_pub_env_queue_size
    pub quiet : SendsOnly left ⊎ ((waiting ≡ []) × WritesFirst left)

module _ {F D Q : Type 0} (fp : Fp F D) (service : QueueService Q) (contents : Q → List Parameter)
    (laws : QueueLaws service contents) (goal : List (Sample F)) (lost : List Parameter) where
  abbrev waiting : Station F Q → List Parameter
  waiting s = held s.received ++ contents s.queue

  pub record OnTime (s : Station F Q) : Type 0 where
    pub connected : s.mqtt_connected ≡ true
    pub owes : Owes goal s.published (waiting s) s.left s.store
    pub none_lost : s.refused ≡ lost

  sample_next-OnTime :
      (left : List (Statement F)) (s : Station F Q)
      → s.left ≡ left
      → OnTime s
      → OnTime (sample_next fp service left s)
  unfolding sample_next execute
  sample_next-OnTime [] s e v = v
  sample_next-OnTime (set_timestamp p t ∷ rest) s e v =
      let o = rw e at v.owes in
      record {
        connected = v.connected;
        owes = record {
          owed = o.owed;
          room = o.room;
          quiet = elim o.quiet [ inl h ↦ absurd h | inr h ↦ inr h ];
        };
        none_lost = v.none_lost;
      }
  sample_next-OnTime (set_value p a ∷ rest) s e v =
      let o = rw e at v.owes in
      record {
        connected = v.connected;
        owes = record {
          owed = o.owed;
          room = o.room;
          quiet = elim o.quiet [ inl h ↦ absurd h | inr h ↦ inr h ];
        };
        none_lost = v.none_lost;
      }
  sample_next-OnTime (send p ∷ rest) s e v =
      let o = rw e at v.owes in
      let longer = length-append (waiting s) (p ∷ to_send rest) in
      let front = length-append (held s.received) (contents s.queue) in
      let (taken, grown) = laws.send_room p s.queue (omega (arith, o.room)) in
      let same : (held s.received ++ contents (service.x_queue_send p s.queue).1) ++ to_send rest
          ≡ waiting s ++ p ∷ to_send rest =
        rw grown (simp append_assoc) in
      rw taken (record {
        connected = v.connected;
        owes = record {
          owed = rw same o.owed;
          room = rw same o.room;
          quiet = inl (elim o.quiet [ inl h ↦ h | inr h ↦ h.1 ]);
        };
        none_lost = v.none_lost;
      })

  receive-OnTime : (s : Station F Q) → s.received ≡ none → OnTime s → OnTime (receive fp service s)
  unfolding receive
  receive-OnTime s empty v =
      let (oldest, others) = laws.receive_oldest s.queue in
      let o : Owes goal s.published (contents s.queue) s.left s.store = rw empty at v.owes in
      record {
        connected = v.connected;
        owes = rw (oldest, others, held-head? (contents s.queue)) o;
        none_lost = v.none_lost;
      }

  publish-OnTime :
      (r : Option Parameter) (s : Station F Q)
      → s.received ≡ r
      → OnTime s
      → OnTime (publish fp service r s)
  unfolding publish
  publish-OnTime none s e v = v
  publish-OnTime (some p) s e v =
      let o : Owes goal s.published (p ∷ contents s.queue) s.left s.store = rw e at v.owes in
      let still : SendsOnly s.left = elim o.quiet [ inl h ↦ h | inr h ↦ absurd (cc (h.0)) ] in
      let same = final-SendsOnly s.left s.store still in
      rw v.connected (record {
        connected = refl;
        owes = record {
          owed = rw (append_assoc s.published (s.store p ∷ [])) (rw same at o.owed);
          room = omega (arith, o.room);
          quiet = inl still;
        };
        none_lost = v.none_lost;
      })

  Step-OnTime : (s t : Station F Q) → Step fp service s t → OnTime s → OnTime t
  Step-OnTime s _ samples v = sample_next-OnTime s.left s refl v
  Step-OnTime s _ (receives e) v = receive-OnTime s e v
  Step-OnTime s _ publishes v = publish-OnTime s.received s refl v

  pub Run-OnTime : (s t : Station F Q) → Run fp service s t → OnTime s → OnTime t
  Run-OnTime s _ start v = v
  Run-OnTime s _ (step {t} {u} r st) v = Step-OnTime t u st (Run-OnTime s t r v)
