-- ===== src/Notifier/Machine/Tracks.antt =====
-- What each step of the machine keeps of the subscriber and the store.
use modelsrv.Prelude.{
  ◌≡◌, refl, sym, ◌∙◌, Option, none, some, Bool, true, false, List, [], ◌∷◌, ◌++◌, Bool-cases, inl,
  inr, append_assoc, ltb, length,
}
use modelsrv.Event.{Event}
use modelsrv.View.{resource_key_eq}
use modelsrv.Latest.{get_events}
use modelsrv.Latest.Valid.{IsValid, receive-IsValid}
use modelsrv.Latest.Replay.{receive_event}
use modelsrv.Notifier.{enqueue, notify_queue_depth}
use modelsrv.Notifier.Machine.{
  Machine, Phase, waiting, checking, draining, snapshotting, sending, Step, records, enqueues,
  delivers, fails, retries, settles, resyncs, discards, drained, snapshots, sends, send_fails, sent,
  Steps, here, next, seen, dequeued,
}
use modelsrv.Notifier.Machine.Fresh.{IsFresh, IsFresh-record, IsFresh-tail}
use modelsrv.Notifier.Machine.Catches.{Catches, Catches-record, Catches-seen, Catches-snapshot}

module _ {O : Type 0} where
  -- What is left of a snapshot that is being sent; in two phases the subscriber waits for a whole one.
  abbrev pub left : Phase O → Option (List (Event O))
  left waiting = some []
  left checking = some []
  left draining = none
  left snapshotting = none
  left (sending rest) = some rest

  -- Whether the queue is about to be thrown away.
  abbrev pub is_draining : Phase O → Bool
  is_draining draining = true
  is_draining waiting = false
  is_draining checking = false
  is_draining snapshotting = false
  is_draining (sending rest) = false

  pub record Tracks (m : Machine O) : Type 0 where
    pub valid : IsValid m.store
    pub pending_fresh : IsFresh m.store m.pending
    pub queue_fresh :
        m.notifier.resync ≡ false
        → is_draining m.phase ≡ false
        → IsFresh m.store (m.notifier.queue ++ m.pending)
    pub view_fresh :
        (rest : List (Event O))
        → m.notifier.resync ≡ false
        → left m.phase ≡ some rest
        → Catches m.store (rest ++ (m.notifier.queue ++ m.pending)) m.view

  records-Tracks :
      (m : Machine O) (ev : Event O)
      → Tracks m
      → Tracks (record m { store = receive_event m.store ev; pending = m.pending ++ (ev ∷ []) })
  records-Tracks m ev t = record {
    valid = receive-IsValid m.store ev.resource_type ev.operation ev.resource_id ev.objects t.valid;
    pending_fresh = IsFresh-record m.store m.pending ev t.pending_fresh;
    queue_fresh = λ n d.
        rw (sym (append_assoc m.notifier.queue m.pending (ev ∷ [])))
          (IsFresh-record m.store (m.notifier.queue ++ m.pending) ev (t.queue_fresh n d));
    view_fresh = λ rest n l.
        rw
          (
            sym (append_assoc m.notifier.queue m.pending (ev ∷ [])),
            sym (append_assoc rest (m.notifier.queue ++ m.pending) (ev ∷ [])),
          )
          (Catches-record m.store (rest ++ (m.notifier.queue ++ m.pending)) m.view ev
            (t.view_fresh rest n l));
  }

  enqueues-Tracks :
      (m : Machine O) (ev : Event O) (rest : List (Event O))
      → m.pending ≡ ev ∷ rest
      → Tracks m
      → Tracks (record m { pending = rest; notifier = enqueue m.notifier ev })
  unfolding enqueue
  enqueues-Tracks m ev rest p t =
      let fresh : IsFresh m.store rest = IsFresh-tail m.store ev rest (rw p at t.pending_fresh) in
      let moved : m.notifier.queue ++ m.pending ≡ (m.notifier.queue ++ (ev ∷ [])) ++ rest =
        rw (p, append_assoc) refl in
      elim (Bool-cases (ltb (length m.notifier.queue) notify_queue_depth)) [
        | inl e ↦ rw e (record {
          valid = t.valid;
          pending_fresh = fresh;
          queue_fresh = λ n d. rw moved at (t.queue_fresh n d);
          view_fresh = λ left_over n l. rw moved at (t.view_fresh left_over n l);
        })
        | inr e ↦ rw e (record {
          valid = t.valid;
          pending_fresh = fresh;
          queue_fresh = λ n d. absurd (true_is_false n);
          view_fresh = λ left_over n l. absurd (true_is_false n);
        })
      ]
    where
      true_is_false : true ≡ false → ⊥
      true_is_false n = cc

  -- While a resync is due, nothing is asked of the queue and the subscriber.
  due-Tracks :
      (m : Machine O)
      → IsValid m.store
      → IsFresh m.store m.pending
      → m.notifier.resync ≡ true
      → Tracks m
  due-Tracks m v f d = record {
    valid = v;
    pending_fresh = f;
    queue_fresh = λ n w. absurd (both d n);
    view_fresh = λ rest n l. absurd (both d n);
  }
    where
      both : {b : Bool} → b ≡ true → b ≡ false → ⊥
      both x y = cc

  -- A step from one phase to another in which the same is left to send.
  moves-Tracks :
      (m : Machine O) (phase : Phase O) (retry : Bool)
      → left phase ≡ left m.phase
      → is_draining phase ≡ is_draining m.phase
      → Tracks m
      → Tracks (record m { phase = phase; retry = retry })
  moves-Tracks m phase retry l d t = record {
    valid = t.valid;
    pending_fresh = t.pending_fresh;
    queue_fresh = λ n w. t.queue_fresh n (sym d ∙ w);
    view_fresh = λ rest n w. t.view_fresh rest n (sym l ∙ w);
  }

  delivers-Tracks :
      (m : Machine O) (ev : Event O) (rest : List (Event O))
      → m.phase ≡ waiting
      → m.notifier.queue ≡ ev ∷ rest
      → Tracks m
      → Tracks (record m {
        notifier = dequeued m.notifier rest;
        phase = checking;
        retry = false;
        view = seen ev m.view;
      })
  delivers-Tracks m ev rest w q t = record {
    valid = t.valid;
    pending_fresh = t.pending_fresh;
    queue_fresh =
        λ n d. IsFresh-tail m.store ev (rest ++ m.pending) (rw q at (t.queue_fresh n (rw w refl)));
    view_fresh = λ more n l.
        let none_left : [] ≡ more = cc l in
        rw (sym none_left) (
          Catches-seen m.store (rest ++ m.pending) m.view ev
            (rw q at (t.view_fresh [] n (rw w refl))));
  }

  resyncs-Tracks :
      (m : Machine O)
      → Tracks m
      → Tracks (record m { notifier = record m.notifier { resync = false }; phase = draining })
  resyncs-Tracks m t = record {
    valid = t.valid;
    pending_fresh = t.pending_fresh;
    queue_fresh = λ n d. absurd (cc d);
    view_fresh = λ rest n l. absurd (cc l);
  }

  discards-Tracks :
      (m : Machine O) (rest : List (Event O))
      → m.phase ≡ draining
      → Tracks m
      → Tracks (record m { notifier = dequeued m.notifier rest })
  discards-Tracks m rest p t = record {
    valid = t.valid;
    pending_fresh = t.pending_fresh;
    queue_fresh = λ n d. absurd (cc (rw p at d));
    view_fresh = λ more n l. absurd (cc (rw p at l));
  }

  drained-Tracks :
      (m : Machine O)
      → m.notifier.queue ≡ []
      → Tracks m
      → Tracks (record m { phase = snapshotting })
  drained-Tracks m q t = record {
    valid = t.valid;
    pending_fresh = t.pending_fresh;
    queue_fresh = λ n d. rw q t.pending_fresh;
    view_fresh = λ rest n l. absurd (cc l);
  }

  snapshots-Tracks :
      (m : Machine O)
      → m.phase ≡ snapshotting
      → Tracks m
      → Tracks (record m { phase = sending (get_events m.store) })
  snapshots-Tracks m p t = record {
    valid = t.valid;
    pending_fresh = t.pending_fresh;
    queue_fresh = λ n d. t.queue_fresh n (rw p refl);
    view_fresh = λ rest n l.
        let all : get_events m.store ≡ rest = cc l in
        rw (sym all) (
          Catches-snapshot m.store (m.notifier.queue ++ m.pending) m.view t.valid
            (t.queue_fresh n (rw p refl)));
  }

  sends-Tracks :
      (m : Machine O) (ev : Event O) (rest : List (Event O))
      → m.phase ≡ sending (ev ∷ rest)
      → Tracks m
      → Tracks (record m { phase = sending rest; view = seen ev m.view })
  sends-Tracks m ev rest p t = record {
    valid = t.valid;
    pending_fresh = t.pending_fresh;
    queue_fresh = λ n d. t.queue_fresh n (rw p refl);
    view_fresh = λ more n l.
        let same : rest ≡ more = cc l in
        rw (sym same) (
          Catches-seen m.store (rest ++ (m.notifier.queue ++ m.pending)) m.view ev
            (t.view_fresh (ev ∷ rest) n (rw p refl)));
  }

  -- Every step keeps track of the store.
  Step-Tracks : {m u : Machine O} → Step m u → Tracks m → Tracks u
  Step-Tracks {m} (records ev e) t = rw e (records-Tracks m ev t)
  Step-Tracks {m} (enqueues ev rest p e) t = rw e (enqueues-Tracks m ev rest p t)
  Step-Tracks {m} (delivers ev rest w q e) t = rw e (delivers-Tracks m ev rest w q t)
  Step-Tracks {m} (fails ev rest reached w q e) t = rw e (due-Tracks _ t.valid t.pending_fresh refl)
  Step-Tracks {m} (retries w r e) t = rw e (moves-Tracks m checking false (rw w refl) (rw w refl) t)
  Step-Tracks {m} (settles c n e) t =
      rw e (moves-Tracks m waiting m.retry (rw c refl) (rw c refl) t)
  Step-Tracks {m} (resyncs c d e) t = rw e (resyncs-Tracks m t)
  Step-Tracks {m} (discards ev rest p q e) t = rw e (discards-Tracks m rest p t)
  Step-Tracks {m} (drained p q e) t = rw e (drained-Tracks m q t)
  Step-Tracks {m} (snapshots p e) t = rw e (snapshots-Tracks m p t)
  Step-Tracks {m} (sends ev rest p e) t = rw e (sends-Tracks m ev rest p t)
  Step-Tracks {m} (send_fails ev rest reached p e) t =
      rw e (due-Tracks _ t.valid t.pending_fresh refl)
  Step-Tracks {m} (sent p e) t = rw e (moves-Tracks m waiting m.retry (rw p refl) (rw p refl) t)

  pub Steps-Tracks : {m u : Machine O} → Steps m u → Tracks m → Tracks u
  Steps-Tracks here t = t
  Steps-Tracks (next steps step) t = Step-Tracks step (Steps-Tracks steps t)
