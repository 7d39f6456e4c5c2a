-- ===== src/Notifier/Machine.antt =====
-- internal/events/notify.go, `run` and `deliverSnapshot`, beside the goroutines that record events:
-- one notifier, its delivery goroutine, the store, and what the subscriber holds, as a step
-- relation. A recorded event first waits in `pending`: `recordingSink.Receive` gives the lock back
-- before it enqueues. The steps of `Step` are those of a model that only one goroutine changes at a
-- time; `Race` adds a second one that overtakes.
pub mod Fresh
pub mod Catches
pub mod Tracks
pub mod Converge
pub mod Lost
pub mod Overtaken
use modelsrv.Prelude.{
  ◌≡◌, refl, ap, sym, Bool, true, false, Option, List, [], ◌∷◌, ◌++◌, if◌then◌else◌,
}
use modelsrv.Event.{Event}
use modelsrv.Event.Wire.{create_operation, delete_operation}
use modelsrv.View.{ResourceKey, resource_key_eq, event_key, outcome, put}
use modelsrv.Latest.{LatestStateStore, get_events}
use modelsrv.Latest.Replay.{receive_event}
use modelsrv.Notifier.{Notifier, enqueue, drain_queue}

-- Where the delivery goroutine stands: in the select; behind it, before the test of `resync`; in the
-- loop of `drainQueue`, which events may still join; about to take the snapshot; sending what is left of it.
pub data Phase (O : Type 0) : Type 0 where
  waiting checking draining snapshotting : Phase O
  sending : List (Event O) → Phase O

pub record Machine (O : Type 0) : Type 0 where
  pub store : LatestStateStore O
  pub pending : List (Event O)
  pub notifier : Notifier O
  pub phase : Phase O
  -- Whether the timer `resyncRetry` is set.
  pub retry : Bool
  -- What the subscriber holds.
  pub view : ResourceKey → Option (List O)

module _ {O : Type 0} where
  -- The subscriber after an event that reached it.
  abbrev pub seen : Event O → (ResourceKey → Option (List O)) → ResourceKey → Option (List O)
  seen ev view = put (event_key ev) (outcome ev) view

  -- A delivery that is reported as failed may have reached the subscriber all the same.
  abbrev pub perhaps_seen :
      Bool → Event O → (ResourceKey → Option (List O)) → ResourceKey → Option (List O)
  perhaps_seen reached ev view = if reached then seen ev view else view

  -- The notifier without the head of its queue.
  abbrev pub dequeued : Notifier O → List (Event O) → Notifier O
  dequeued n rest = record n { queue = rest }

  abbrev pub flagged : Notifier O → Notifier O
  flagged n = record n { resync = true }

  abbrev pub creation : ResourceKey → List O → Event O
  creation (rt, id) objects = record {
    resource_type = rt;
    operation = create_operation;
    resource_id = id;
    objects = objects;
  }

  abbrev pub deletion : ResourceKey → Event O
  deletion (rt, id) = record {
    resource_type = rt;
    operation = delete_operation;
    resource_id = id;
    objects = [];
  }

  pub data Step (m u : Machine O) : Type 0 where
    records :
        (ev : Event O)
        → u ≡ record m { store = receive_event m.store ev; pending = m.pending ++ (ev ∷ []) }
        → Step m u
    enqueues :
        (ev : Event O) (rest : List (Event O))
        → m.pending ≡ ev ∷ rest
        → u ≡ record m { pending = rest; notifier = enqueue m.notifier ev }
        → Step m u
    delivers :
        (ev : Event O) (rest : List (Event O))
        → m.phase ≡ waiting
        → m.notifier.queue ≡ ev ∷ rest
        → u ≡ record m {
          notifier = dequeued m.notifier rest;
          phase = checking;
          retry = false;
          view = seen ev m.view;
        }
        → Step m u
    fails :
        (ev : Event O) (rest : List (Event O)) (reached : Bool)
        → m.phase ≡ waiting
        → m.notifier.queue ≡ ev ∷ rest
        → u ≡ record m {
          notifier = flagged (dequeued m.notifier rest);
          phase = checking;
          retry = false;
          view = perhaps_seen reached ev m.view;
        }
        → Step m u
    retries :
        m.phase ≡ waiting
        → m.retry ≡ true
        → u ≡ record m { phase = checking; retry = false }
        → Step m u
    settles :
        m.phase ≡ checking → m.notifier.resync ≡ false → u ≡ record m { phase = waiting } → Step m u
    resyncs :
        m.phase ≡ checking
        → m.notifier.resync ≡ true
        → u ≡ record m { notifier = record m.notifier { resync = false }; phase = draining }
        → Step m u
    discards :
        (ev : Event O) (rest : List (Event O))
        → m.phase ≡ draining
        → m.notifier.queue ≡ ev ∷ rest
        → u ≡ record m { notifier = dequeued m.notifier rest }
        → Step m u
    drained :
        m.phase ≡ draining
        → m.notifier.queue ≡ []
        → u ≡ record m { phase = snapshotting }
        → Step m u
    snapshots :
        m.phase ≡ snapshotting → u ≡ record m { phase = sending (get_events m.store) } → Step m u
    sends :
        (ev : Event O) (rest : List (Event O))
        → m.phase ≡ sending (ev ∷ rest)
        → u ≡ record m { phase = sending rest; view = seen ev m.view }
        → Step m u
    send_fails :
        (ev : Event O) (rest : List (Event O)) (reached : Bool)
        → m.phase ≡ sending (ev ∷ rest)
        → u ≡ record m {
          notifier = flagged m.notifier;
          phase = waiting;
          retry = true;
          view = perhaps_seen reached ev m.view;
        }
        → Step m u
    sent : m.phase ≡ sending [] → u ≡ record m { phase = waiting } → Step m u

  -- Two goroutines change the model: the later event is enqueued first.
  pub data Race (m u : Machine O) : Type 0 where
    alone : Step m u → Race m u
    overtakes :
        (ev next : Event O) (rest : List (Event O))
        → m.pending ≡ ev ∷ next ∷ rest
        → u ≡ record m { pending = ev ∷ rest; notifier = enqueue m.notifier next }
        → Race m u

  pub data Steps (m : Machine O) : Machine O → Type 0 where
    here : Steps m m
    next : {t u : Machine O} → Steps m t → Step t u → Steps m u

  pub data Races (m : Machine O) : Machine O → Type 0 where
    here : Races m m
    next : {t u : Machine O} → Races m t → Race t u → Races m u

  -- The loop of `drainQueue`, when nothing is enqueued meanwhile, comes to `drain_queue`.
  discards_all :
      {start : Machine O} (m : Machine O) (evs : List (Event O))
      → Steps start m
      → m.phase ≡ draining
      → m.notifier.queue ≡ evs
      → Steps start (record m { notifier = drain_queue m.notifier; phase = snapshotting })
  unfolding drain_queue
  discards_all m [] steps p q =
      let empty = λ (evs : List (Event O)). record m {
        notifier = dequeued m.notifier evs;
        phase = snapshotting;
      } in
      next steps (drained p q (ap empty (sym q)))
  discards_all m (ev ∷ evs) steps p q =
      discards_all (record m { notifier = dequeued m.notifier evs }) evs
        (next steps (discards ev evs p q refl)) p refl

  -- Nothing is left to do.
  pub record IsQuiet (m : Machine O) : Type 0 where
    pub none_pending : m.pending ≡ []
    pub none_queued : m.notifier.queue ≡ []
    pub no_resync : m.notifier.resync ≡ false
    pub at_rest : m.phase ≡ waiting
