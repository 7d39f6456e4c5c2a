-- ===== src/Notifier/Machine/Overtaken.antt =====
-- Two goroutines that change the model: the later event is enqueued first.
use modelsrv.Prelude.{◌≡◌, refl, ◌∙◌, Option, none, some, false, List, [], ◌∷◌, beq_self}
use modelsrv.View.{ResourceKey, resource_key_eq, replay}
use modelsrv.Latest.{LatestStateStore, get_events}
use modelsrv.Latest.Replay.{live, live-receive, receive_event, updates}
use modelsrv.Notifier.{enqueue}
use modelsrv.Notifier.Machine.{
  Machine, waiting, records, enqueues, delivers, settles, IsQuiet, seen, deletion, creation, Races,
  alone, overtakes, here, next,
}
use modelsrv.Notifier.Machine.Converge.{subscribed_at}

module _ {O : Type 0} where
  -- The machine after a Create and a Delete that were delivered the other way round.
  abbrev crossed :
      LatestStateStore O → (ResourceKey → Option (List O)) → ResourceKey → List O → Machine O
  crossed s old k objects = record {
    store = receive_event (receive_event s (creation k objects)) (deletion k);
    pending = [];
    notifier = record { url = ""; queue = []; resync = false };
    phase = waiting;
    retry = false;
    view = seen (creation k objects) (seen (deletion k) (replay (updates (get_events s)) old));
  }

  crossed_run :
      (s : LatestStateStore O) (old : ResourceKey → Option (List O)) (k : ResourceKey)
      (objects : List O)
      → Races (subscribed_at s old) (crossed s old k objects)
  unfolding enqueue
  crossed_run s old k objects =
      next
        (next
          (next
            (next
              (next
                (next
                  (next (next here (alone (records (creation k objects) refl)))
                    (alone (records (deletion k) refl)))
                  (overtakes (creation k objects) (deletion k) [] refl refl))
                (alone (enqueues (creation k objects) [] refl refl)))
              (alone (delivers (deletion k) (creation k objects ∷ []) refl refl refl)))
            (alone (settles refl refl refl)))
          (alone (delivers (creation k objects) [] refl refl refl)))
        (alone (settles refl refl refl))

  -- If two goroutines change the model at once, a subscriber can come to hold a resource for good
  -- that the store has deleted, though every event was delivered: the Create is recorded first and
  -- enqueued last.
  pub Races-diverge :
      (s : LatestStateStore O) (old : ResourceKey → Option (List O)) (k : ResourceKey)
      (objects : List O)
      → (m : Machine O) × Races (subscribed_at s old) m
        × IsQuiet m
        × (live m.store k ≡ none)
        × (m.view k ≡ some objects)
  Races-diverge s old k objects = (
    crossed s old k objects,
    crossed_run s old k objects,
    record { none_pending = refl; none_queued = refl; no_resync = refl; at_rest = refl },
    live-receive (receive_event s (creation k objects)) (deletion k) k ∙ rw (beq_self k) refl,
    rw (beq_self k) refl,
  )
