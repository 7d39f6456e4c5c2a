-- ===== src/Notifier/Machine/Lost.antt =====
-- What a resync does not repair, and when it does not start.
use modelsrv.Prelude.{◌≡◌, refl, ap, ◌∙◌, Option, none, some, true, false, List, [], ◌∷◌, beq_self}
use modelsrv.Event.{Event}
use modelsrv.Event.Wire.{delete_operation}
use modelsrv.View.{ResourceKey, resource_key_eq, replay}
use modelsrv.Latest.{LatestStateStore, get_events}
use modelsrv.Latest.Valid.{IsValid, receive-IsValid}
use modelsrv.Latest.Replay.{live, live-receive, receive_event, updates, replay-get_events, or_kept}
use modelsrv.Notifier.{enqueue}
use modelsrv.Notifier.Machine.{
  Machine, waiting, sending, Step, records, enqueues, delivers, fails, retries, settles, resyncs,
  discards, drained, snapshots, sends, send_fails, sent, Steps, here, next, IsQuiet, seen, deletion,
}
use modelsrv.Notifier.Machine.Converge.{subscribed_at}

module _ {O : Type 0} where
  Steps-trans : {m t u : Machine O} → Steps m t → Steps t u → Steps m u
  Steps-trans first here = first
  Steps-trans first (next rest step) = next (Steps-trans first rest) step

  -- A snapshot that is delivered to the end.
  sends_all :
      (m : Machine O) (evs : List (Event O))
      → m.phase ≡ sending evs
      → Steps m (record m { phase = waiting; view = replay (updates evs) m.view })
  unfolding replay
  sends_all m [] p = next here (sent p refl)
  sends_all m (ev ∷ evs) p =
      Steps-trans (next here (sends ev evs p refl))
        (sends_all (record m { phase = sending evs; view = seen ev m.view }) evs refl)

  -- The machine after a Delete whose delivery failed and the resync that followed.
  abbrev resynced_without :
      LatestStateStore O → (ResourceKey → Option (List O)) → ResourceKey → Machine O
  resynced_without s old k =
      let s' = receive_event s (deletion k) in
      record {
        store = s';
        pending = [];
        notifier = record { url = ""; queue = []; resync = false };
        phase = waiting;
        retry = false;
        view = replay (updates (get_events s')) (replay (updates (get_events s)) old);
      }

  resync_run :
      (s : LatestStateStore O) (old : ResourceKey → Option (List O)) (k : ResourceKey)
      → Steps (subscribed_at s old) (resynced_without s old k)
  unfolding enqueue
  resync_run s old k =
      Steps-trans
        (next
          (next
            (next
              (next
                (next (next here (records (deletion k) refl)) (enqueues (deletion k) [] refl refl))
                (fails (deletion k) [] false refl refl refl))
              (resyncs refl refl refl))
            (drained refl refl refl))
          (snapshots refl refl))
        (sends_all _ (get_events (receive_event s (deletion k))) refl)

  -- A resync after a failed delivery of a Delete leaves the subscriber with the resource, and
  -- nothing more to do: for every live resource there is a run of the notifier that deletes it from
  -- the store, comes to rest, and has the subscriber hold it still.
  pub resync-keeps_deleted :
      (s : LatestStateStore O) (old : ResourceKey → Option (List O)) (k : ResourceKey) (x : List O)
      → IsValid s
      → live s k ≡ some x
      → (m : Machine O) × Steps (subscribed_at s old) m
        × IsQuiet m
        × (live m.store k ≡ none)
        × (m.view k ≡ some x)
  resync-keeps_deleted s old k x v h =
      let s' = receive_event s (deletion k) in
      let gone : live s' k ≡ none = live-receive s (deletion k) k ∙ rw (beq_self k) refl in
      let held : replay (updates (get_events s)) old k ≡ some x =
        replay-get_events s old k v ∙ ap (λ l. or_kept l (old k)) h in
      let v' = receive-IsValid s k.0 delete_operation k.1 [] v in
      (
        resynced_without s old k,
        resync_run s old k,
        record { none_pending = refl; none_queued = refl; no_resync = refl; at_rest = refl },
        gone,
        replay-get_events s' (replay (updates (get_events s)) old) k v'
            ∙ (ap (λ l. or_kept l (replay (updates (get_events s)) old k)) gone ∙ held),
      )

  -- A notifier that `AddSubscriber` starts after a replay that failed: the flag is set, and neither
  -- an event nor the timer will wake the goroutine.
  abbrev pub started_after_failure :
      LatestStateStore O → (ResourceKey → Option (List O)) → Machine O
  started_after_failure s view = record {
    store = s;
    pending = [];
    notifier = record { url = ""; queue = []; resync = true };
    phase = waiting;
    retry = false;
    view = view;
  }

  -- A subscriber whose replay failed when it was added is not resynchronised until the model changes:
  -- the only steps from there are those that record an event.
  pub started_after_failure-Step :
      (s : LatestStateStore O) (view : ResourceKey → Option (List O)) (u : Machine O)
      → Step (started_after_failure s view) u
      → (ev : Event O) × (u
          ≡ record (started_after_failure s view) { store = receive_event s ev; pending = ev ∷ [] })
  started_after_failure-Step s view u (records ev e) = (ev, e)
  started_after_failure-Step s view u (enqueues ev rest p e) = absurd (cc p)
  started_after_failure-Step s view u (delivers ev rest w q e) = absurd (cc q)
  started_after_failure-Step s view u (fails ev rest reached w q e) = absurd (cc q)
  started_after_failure-Step s view u (retries w r e) = absurd (cc r)
  started_after_failure-Step s view u (settles c n e) = absurd (cc c)
  started_after_failure-Step s view u (resyncs c d e) = absurd (cc c)
  started_after_failure-Step s view u (discards ev rest p q e) = absurd (cc q)
  started_after_failure-Step s view u (drained p q e) = absurd (cc p)
  started_after_failure-Step s view u (snapshots p e) = absurd (cc p)
  started_after_failure-Step s view u (sends ev rest p e) = absurd (cc p)
  started_after_failure-Step s view u (send_fails ev rest reached p e) = absurd (cc p)
  started_after_failure-Step s view u (sent p e) = absurd (cc p)
