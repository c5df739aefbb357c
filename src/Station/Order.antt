-- ===== src/Station/Order.antt =====
-- What holds of the two tasks in every interleaving, also when the publishing task lags behind.
use mathlib.Core.List.{append_assoc, map-append}
use esp32_s3_i2c_mqtt_machba.Base.{
  ℕ, ◌≤◌, ◌≡◌, ◌∙◌, refl, ◌⊎◌, inl, inr, true, false, Bool-cases, Option, none, some, List, [], ◌∷◌,
  ◌++◌, map, length, length-append, length-drop, drop, ltb, ltb→lt, ltb_false→le, ◌==◌, arith,
}
use esp32_s3_i2c_mqtt_machba.Float.{Fp}
use esp32_s3_i2c_mqtt_machba.Station.Sample.{
  Parameter, parameter_number, Sample, Store, write_sample,
}
use esp32_s3_i2c_mqtt_machba.Station.Queue.{QueueService, QueueLaws, head?, mqtt_pub_env_queue_size}
use esp32_s3_i2c_mqtt_machba.Station.Tasks.{
  Readings, Statement, set_timestamp, set_value, send, Station, execute, sample_next, wake, receive,
  publish, Step, samples, receives, publishes, Reach, here, next, wakes,
}

-- The item that the publishing task holds.
abbrev pub held : Option Parameter → List Parameter
held none = []
held (some p) = p ∷ []

pub held-head? : (ps : List Parameter) → held (head? ps) ++ drop 1 ps ≡ ps
held-head? [] = refl
held-head? (p ∷ ps) = refl

-- Every object is that of its parameter.
abbrev pub Labelled : {F : Type 0} → Store F → Type 0
Labelled store = (p : Parameter) → (store p).parameter ≡ p

pub write_sample-Labelled :
    {F : Type 0} (p : Parameter) (f : Sample F → Sample F) (store : Store F)
    → ((x : Sample F) → (f x).parameter ≡ x.parameter)
    → Labelled store
    → Labelled (write_sample p f store)
unfolding write_sample
write_sample-Labelled p f store keep h q =
    elim (Bool-cases (parameter_number p == parameter_number q)) [
      | inl e ↦ rw e (keep (store q) ∙ h q)
      | inr e ↦ rw e (h q)
    ]

module _ {F D Q : Type 0} (fp : Fp F D) (service : QueueService Q) (contents : Q → List Parameter)
    (laws : QueueLaws service contents) where
  -- The queue keeps to its size and hands on in order what it takes, and there is a link or there is
  -- nothing to publish.
  pub record InOrder (s : Station F Q) : Type 0 where
    pub labelled : Labelled s.store
    pub in_order :
        map (λ x. x.parameter) s.published ++ (held s.received ++ contents s.queue) ≡ s.accepted
    pub bounded : length (contents s.queue) ≤ mqtt_pub_env_queue_size
    pub running : s.restarted ≡ false
    pub linked :
        (s.mqtt_connected ≡ true) ⊎ ((s.left ≡ []) × (s.received ≡ none) × (contents s.queue ≡ []))

  abbrev Linked : Station F Q → Type 0
  Linked s = s.mqtt_connected ≡ true

  send-InOrder :
      (p : Parameter) (s : Station F Q)
      → InOrder s
      → Linked s
      → InOrder (execute fp service (send p) s)
  unfolding execute
  send-InOrder p s v on = elim (Bool-cases (ltb (length (contents s.queue)) 30)) [
    | inl lt ↦
        let (taken, grown) = laws.send_room p s.queue (ltb→lt _ 30 lt) in
        let longer = length-append (contents s.queue) (p ∷ []) in
        let bound = ltb→lt _ 30 lt in
        rw taken (record {
          labelled = v.labelled;
          in_order = rw (grown, ← v.in_order) (simp append_assoc);
          bounded = rw grown (omega arith);
          running = v.running;
          linked = inl on;
        })
    | inr ge ↦
        let (taken, same) = laws.send_full p s.queue (ltb_false→le _ 30 ge) in
        rw taken (record {
          labelled = v.labelled;
          in_order = rw same v.in_order;
          bounded = rw same v.bounded;
          running = v.running;
          linked = inl on;
        })
  ]

  execute-InOrder :
      (c : Statement F) (s : Station F Q) → InOrder s → Linked s → InOrder (execute fp service c s)
  unfolding execute
  execute-InOrder (set_timestamp p t) s v on = record {
    labelled = write_sample-Labelled p _ s.store (λ x. refl) v.labelled;
    in_order = v.in_order;
    bounded = v.bounded;
    running = v.running;
    linked = inl on;
  }
  execute-InOrder (set_value p a) s v on = record {
    labelled = write_sample-Labelled p _ s.store (λ x. refl) v.labelled;
    in_order = v.in_order;
    bounded = v.bounded;
    running = v.running;
    linked = inl on;
  }
  execute-InOrder (send p) s v on = send-InOrder p s v on

  sample_next-InOrder :
      (left : List (Statement F)) (s : Station F Q)
      → s.left ≡ left
      → InOrder s
      → InOrder (sample_next fp service left s)
  unfolding sample_next
  sample_next-InOrder [] s e v = v
  sample_next-InOrder (c ∷ rest) s e v = elim v.linked [
    | inl on ↦
        execute-InOrder c (record s { left = rest })
          (record {
            labelled = v.labelled;
            in_order = v.in_order;
            bounded = v.bounded;
            running = v.running;
            linked = inl on;
          })
          on
    | inr idle ↦ absurd (cc (e, idle.0))
  ]

  receive-InOrder :
      (s : Station F Q) → s.received ≡ none → InOrder s → InOrder (receive fp service s)
  unfolding receive
  receive-InOrder s empty v =
      let (oldest, others) = laws.receive_oldest s.queue in
      let whole : map (λ x. x.parameter) s.published ++ contents s.queue ≡ s.accepted =
        rw empty at v.in_order in
      record {
        labelled = v.labelled;
        in_order = rw (oldest, others, held-head? (contents s.queue)) whole;
        bounded = rw (others, length-drop 1 (contents s.queue)) (omega (arith, v));
        running = v.running;
        linked = elim v.linked [
          | inl on ↦ inl on
          | inr idle ↦ inr (idle.0, rw (oldest, idle.2), rw (others, idle.2))
        ];
      }

  publish-InOrder :
      (r : Option Parameter) (s : Station F Q)
      → s.received ≡ r
      → InOrder s
      → InOrder (publish fp service r s)
  unfolding publish
  publish-InOrder none s e v = v
  publish-InOrder (some p) s e v = elim v.linked [
    | inl on ↦ rw on (record {
      labelled = v.labelled;
      in_order = rw (map-append, append_assoc, v.labelled p) (rw e at v.in_order);
      bounded = v.bounded;
      running = v.running;
      linked = inl refl;
    })
    | inr idle ↦ absurd (cc (e, idle.1))
  ]

  wake-InOrder :
      (event : ℕ) (r : Readings F) (s : Station F Q)
      → InOrder s
      → InOrder (wake fp service event r s)
  unfolding wake
  wake-InOrder event r s v = elim (Bool-cases s.mqtt_connected) [
    | inl on ↦ rw on (record {
      labelled = v.labelled;
      in_order = v.in_order;
      bounded = v.bounded;
      running = v.running;
      linked = inl refl;
    })
    | inr off ↦ rw off (record {
      labelled = v.labelled;
      in_order = v.in_order;
      bounded = v.bounded;
      running = v.running;
      linked = rw off at v.linked;
    })
  ]

  Step-InOrder : (s t : Station F Q) → Step fp service s t → InOrder s → InOrder t
  Step-InOrder s _ samples v = sample_next-InOrder s.left s refl v
  Step-InOrder s _ (receives e) v = receive-InOrder s e v
  Step-InOrder s _ publishes v = publish-InOrder s.received s refl v

  -- The state in which the two tasks start: nothing is queued or published.
  pub record IsNew (s : Station F Q) : Type 0 where
    pub new_store : Labelled s.store
    pub no_statements : s.left ≡ []
    pub no_item : s.received ≡ none
    pub no_items : contents s.queue ≡ []
    pub no_published : s.published ≡ []
    pub no_accepted : s.accepted ≡ []
    pub no_restart : s.restarted ≡ false

  IsNew-InOrder : (s : Station F Q) → IsNew s → InOrder s
  IsNew-InOrder s n = record {
    labelled = n.new_store;
    in_order = rw (n.no_item, n.no_items, n.no_published, n.no_accepted);
    bounded = rw n.no_items (omega arith);
    running = n.no_restart;
    linked = inr (n.no_statements, n.no_item, n.no_items);
  }

  -- In every state that the two tasks reach from their start, whatever the readings and the
  -- interleaving: `esp_restart` has not been called; the parameters of what has been published, then
  -- the item that the publishing task holds and then the queue are, in this order, what the queue
  -- has taken; the queue holds 30 items at most; and without a link nothing is queued.
  pub Reach-InOrder : (s t : Station F Q) → IsNew s → Reach fp service s t → InOrder t
  Reach-InOrder s _ n here = IsNew-InOrder s n
  Reach-InOrder s _ n (next {t} {u} r st) = Step-InOrder t u st (Reach-InOrder s t n r)
  Reach-InOrder s _ n (wakes {t} event m r e) = wake-InOrder event m t (Reach-InOrder s t n r)
