-- ===== src/Manager/Log.antt =====
-- The manager against the whole history of its events.
use modelsrv.Prelude.{
  ℕ, ◌+◌, ◌^◌, ◌≤◌, ◌<◌, ◌≡◌, refl, ap, List, [], ◌∷◌, ◌++◌, arith, length, append_assoc,
  append-nil, ℤ, subst,
}
use modelsrv.Event.{Event, StoredEvent, new_stored_event}
use modelsrv.History.{ring_limit}
use modelsrv.History.Retained.{Retains, Retains-add, new_history_ring-Retains}
use modelsrv.Latest.{new_latest_state_store}
use modelsrv.Latest.Replay.{receive_all, receive_all-append}
use modelsrv.Manager.{
  EventManager, new_event_manager, record_event, increment_sequence_id, receive, add_u64,
}

-- One event with the number and time that it was stored under.
pub record Entry (O : Type 0) : Type 0 where
  pub seq : ℕ
  pub at : ℕ
  pub event : Event O

-- What changes the manager's record of events: a recorded event, and `IncrementSequenceId`.
pub data Act {ℓ} (O : Type ℓ) : Type ℓ where
  records : ℕ → Event O → Act O
  increments : Act O

module _ {O : Type 0} where
  abbrev pub stored_entry : Entry O → StoredEvent O
  stored_entry x =
      new_stored_event x.seq x.at x.event.resource_type x.event.operation x.event.resource_id
        x.event.objects

  abbrev pub stored : List (Entry O) → List (StoredEvent O)
  stored [] = []
  stored (x ∷ xs) = stored_entry x ∷ stored xs

  abbrev pub events_of : List (Entry O) → List (Event O)
  events_of [] = []
  events_of (x ∷ xs) = x.event ∷ events_of xs

  -- The numbers rise from above `low` to at most `high`.
  abbrev pub Rising : ℕ → ℕ → List (Entry O) → Type 0
  Rising low high [] = low ≤ high
  Rising low high (x ∷ xs) = (low < x.seq) × Rising x.seq high xs

  pub Rising-snoc :
      (low high : ℕ) (xs : List (Entry O)) (x : Entry O)
      → Rising low high xs
      → high < x.seq
      → Rising low x.seq (xs ++ (x ∷ []))
  Rising-snoc low high [] x r h = (omega arith, omega arith)
  Rising-snoc low high (y ∷ ys) x r h = (r.0, Rising-snoc y.seq high ys x r.1 h)

  pub Rising-mono :
      (low high high' : ℕ) (xs : List (Entry O))
      → high ≤ high'
      → Rising low high xs
      → Rising low high' xs
  Rising-mono low high high' [] h r = omega arith
  Rising-mono low high high' (x ∷ xs) h r = (r.0, Rising-mono x.seq high high' xs h r.1)

  pub stored-append : (xs ys : List (Entry O)) → stored (xs ++ ys) ≡ stored xs ++ stored ys
  stored-append [] ys = refl
  stored-append (x ∷ xs) ys = ap (◌∷◌ (stored_entry x)) (stored-append xs ys)

  pub events_of-append :
      (xs ys : List (Entry O)) → events_of (xs ++ ys) ≡ events_of xs ++ events_of ys
  events_of-append [] ys = refl
  events_of-append (x ∷ xs) ys = ap (◌∷◌ x.event) (events_of-append xs ys)

  -- The manager has seen exactly the entries of h, in order.
  pub record HasSeen (e : EventManager O) (h : List (Entry O)) : Type 0 where
    pub tail : Retains (ring_limit e.history_limit) e.history_tail (stored h)
    pub latest : e.latest_state ≡ receive_all new_latest_state_store (events_of h)
    pub rising : Rising 0 e.sequence_number h

  pub new_event_manager-HasSeen : (opts : List ℤ) → HasSeen (new_event_manager opts) []
  unfolding new_event_manager receive_all
  new_event_manager-HasSeen opts = record {
    tail = new_history_ring-Retains _;
    latest = refl;
    rising = omega arith;
  }

  -- The entry that the next event is stored as.
  abbrev pub entry_of : EventManager O → ℕ → Event O → Entry O
  entry_of e now ev = record { seq = add_u64 e.sequence_number 1; at = now; event = ev }

  pub record_event-HasSeen :
      (e : EventManager O) (h : List (Entry O)) (now : ℕ) (ev : Event O)
      → HasSeen e h
      → e.sequence_number + 1 < 2 ^ 64
      → HasSeen
          (record_event e now ev.resource_type ev.operation ev.resource_id ev.objects)
          (h ++ (entry_of e now ev ∷ []))
  unfolding record_event receive_all
  record_event-HasSeen e h now ev s b = record {
    tail = rw (stored-append h (entry_of e now ev ∷ [])) (
        Retains-add (ring_limit e.history_limit) e.history_tail (stored h)
          (stored_entry (entry_of e now ev)) s.tail);
    latest = rw (events_of-append h (entry_of e now ev ∷ []), receive_all-append, s.latest);
    rising = Rising-snoc 0 e.sequence_number h (entry_of e now ev) s.rising (omega arith);
  }

  pub increment_sequence_id-HasSeen :
      (e : EventManager O) (h : List (Entry O))
      → HasSeen e h
      → e.sequence_number + 1 < 2 ^ 64
      → HasSeen (increment_sequence_id e) h
  unfolding increment_sequence_id
  increment_sequence_id-HasSeen e h s b = record {
    tail = s.tail;
    latest = s.latest;
    rising = Rising-mono 0 e.sequence_number (add_u64 e.sequence_number 1) h (omega arith) s.rising;
  }

  unfoldable pub act : EventManager O → Act O → EventManager O
  act e (records now ev) = receive e now ev.resource_type ev.operation ev.resource_id ev.objects
  act e increments = increment_sequence_id e

  unfoldable pub run : EventManager O → List (Act O) → EventManager O
  run e [] = e
  run e (a ∷ acts) = run (act e a) acts

  -- The entries that the acts store.
  unfoldable pub logged : EventManager O → List (Act O) → List (Entry O)
  logged e [] = []
  logged e (records now ev ∷ acts) = entry_of e now ev ∷ logged (act e (records now ev)) acts
  logged e (increments ∷ acts) = logged (act e increments) acts

  receive-HasSeen :
      (e : EventManager O) (h : List (Entry O)) (now : ℕ) (ev : Event O)
      → HasSeen e h
      → e.sequence_number + 1 < 2 ^ 64
      → HasSeen (act e (records now ev)) (h ++ (entry_of e now ev ∷ []))
  unfolding act receive
  receive-HasSeen e h now ev s b =
      let r = record_event-HasSeen e h now ev s b in
      record { tail = r.tail; latest = r.latest; rising = r.rising }

  sequence_number-act :
      (e : EventManager O) (a : Act O) → (act e a).sequence_number ≡ add_u64 e.sequence_number 1
  unfolding act receive record_event increment_sequence_id
  sequence_number-act e (records now ev) = refl
  sequence_number-act e increments = refl

  run-HasSeen :
      (e : EventManager O) (h : List (Entry O)) (acts : List (Act O))
      → HasSeen e h
      → e.sequence_number + length acts < 2 ^ 64
      → HasSeen (run e acts) (h ++ logged e acts)
  unfolding run logged
  run-HasSeen e h [] s b = rw (append-nil h) s
  run-HasSeen e h (records now ev ∷ acts) s b =
      subst (λ l. HasSeen (run (act e (records now ev)) acts) l)
        (append_assoc h (entry_of e now ev ∷ []) (logged (act e (records now ev)) acts))
        (run-HasSeen (act e (records now ev)) (h ++ (entry_of e now ev ∷ [])) acts
          (receive-HasSeen e h now ev s (omega arith))
          (omega (arith, sequence_number-act e (records now ev))))
  run-HasSeen e h (increments ∷ acts) s b =
      run-HasSeen (act e increments) h acts
        (unfold act in increment_sequence_id-HasSeen e h s (omega arith))
        (omega (arith, sequence_number-act e increments))

  -- A new manager that goes through fewer than 2 ^ 64 acts has seen exactly the events recorded, in
  -- order: its ring retains the most recent of them and its boundary is the newest one let go, its
  -- latest state is the fold of all, and their numbers rise, none above the current number.
  pub run-new_event_manager :
      (opts : List ℤ) (acts : List (Act O))
      → length acts < 2 ^ 64
      → HasSeen (run (new_event_manager opts) acts) (logged (new_event_manager opts) acts)
  unfolding new_event_manager
  run-new_event_manager opts acts b =
      run-HasSeen (new_event_manager opts) [] acts (new_event_manager-HasSeen opts) (omega arith)
