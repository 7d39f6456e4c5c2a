-- ===== src/Notifier/Machine/Converge.antt =====
-- A subscriber whose notifier has nothing left to do holds what the store holds.
use modelsrv.Prelude.{◌≡◌, refl, ap, sym, ◌∙◌, Option, some, false, List, []}
use modelsrv.View.{ResourceKey, resource_key_eq, replay, last_update}
use modelsrv.Latest.{LatestStateStore, get_events}
use modelsrv.Latest.Valid.{IsValid}
use modelsrv.Latest.Replay.{live, updates, replay-get_events, or_kept}
use modelsrv.Notifier.Machine.{Machine, waiting, Steps, IsQuiet}
use modelsrv.Notifier.Machine.Tracks.{Tracks, Steps-Tracks}

module _ {O : Type 0} where
  -- A subscriber that has just been added, with the whole past delivered to it.
  abbrev pub subscribed_at : LatestStateStore O → (ResourceKey → Option (List O)) → Machine O
  subscribed_at s old = record {
    store = s;
    pending = [];
    notifier = record { url = ""; queue = []; resync = false };
    phase = waiting;
    retry = false;
    view = replay (updates (get_events s)) old;
  }

  subscribed_at-Tracks :
      (s : LatestStateStore O) (old : ResourceKey → Option (List O))
      → IsValid s
      → Tracks (subscribed_at s old)
  unfolding last_update
  subscribed_at-Tracks s old v = record {
    valid = v;
    pending_fresh = λ k. refl;
    queue_fresh = λ n d k. refl;
    view_fresh = λ rest n l.
        let none_left : [] ≡ rest = cc l in
        rw (sym none_left)
          (λ k x h. replay-get_events s old k v ∙ ap (λ held. or_kept held (old k)) h);
  }

  -- Whatever deliveries fail, overflow or are sent again: once nothing is pending, queued or due,
  -- the subscriber holds every live resource as the store does, if the past was delivered to it
  -- when it was added and one goroutine at a time changes the model.
  pub Steps-converge :
      (s : LatestStateStore O) (old : ResourceKey → Option (List O)) (m : Machine O)
      (k : ResourceKey) (x : List O)
      → IsValid s
      → Steps (subscribed_at s old) m
      → IsQuiet m
      → live m.store k ≡ some x
      → m.view k ≡ some x
  unfolding last_update
  Steps-converge s old m k x v steps q h =
      let t = Steps-Tracks steps (subscribed_at-Tracks s old v) in
      let c = t.view_fresh [] q.no_resync (rw q.at_rest refl) in
      (rw (q.none_queued, q.none_pending) at c) k x h
