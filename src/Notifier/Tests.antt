-- ===== src/Notifier/Tests.antt =====
-- Deliveries.
use modelsrv.Prelude.{ℕ, none, [], ◌∷◌, ◌∙◌, beq_self, ◌≡◌, refl, ◌↔◌, Bool, true, false, some, leb}
use modelsrv.Event.{Event}
use modelsrv.Event.Kind.{node_resource}
use modelsrv.View.{ResourceKey, resource_key_eq}
use modelsrv.Latest.{LatestStateStore, new_latest_state_store}
use modelsrv.Latest.Valid.{IsValid, new_latest_state_store-IsValid, receive-IsValid}
use modelsrv.Latest.Replay.{live, live-receive, receive_event, no_resources}
use modelsrv.Notifier.{Attempts, deliver, deliver_from, notify_backoff, enqueue}
use modelsrv.Notifier.Machine.{
  Machine, waiting, records, enqueues, delivers, settles, Steps, Races, here, next, IsQuiet,
  creation, deletion, seen,
}
use modelsrv.Notifier.Machine.Converge.{subscribed_at, Steps-converge}
use modelsrv.Notifier.Machine.Lost.{
  resync-keeps_deleted, started_after_failure, started_after_failure-Step,
}
use modelsrv.Notifier.Machine.Overtaken.{Races-diverge}
use modelsrv.Notifier.Deliver.{Reached, deliver_total}

-- The third attempt reaches the subscriber.
abbrev third_time : Attempts
third_time = record { reaches = λ n. leb 3 n; stops = λ n. false }

deliver-third_time : deliver third_time ≡ some true
unfolding deliver deliver_from
deliver-third_time = refl

-- The waits after the first attempts, in milliseconds, and the longest wait.
backoffs : (notify_backoff 1 ≡ 100) × (notify_backoff 4 ≡ 800) × (notify_backoff 9 ≡ 5000)
unfolding notify_backoff
backoffs = (refl, refl, refl)

deliver_total_example :
    (b : Bool) × (deliver third_time ≡ some b) × ((b ≡ true) ↔ Reached 4 third_time 1)
deliver_total_example = deliver_total third_time

abbrev node : ResourceKey
node = (node_resource, 1)

abbrev store : LatestStateStore ℕ
store = receive_event new_latest_state_store (creation node (10 ∷ []))

store-IsValid : IsValid store
store-IsValid =
    receive-IsValid new_latest_state_store node_resource _ 1 (10 ∷ [])
      new_latest_state_store-IsValid

live-node : live store node ≡ some (10 ∷ [])
live-node =
    live-receive new_latest_state_store (creation node (10 ∷ [])) node ∙ rw (beq_self node) refl

-- The node is created again with other objects, and the event is delivered.
abbrev delivered : Machine ℕ
delivered = record {
  store = receive_event store (creation node (11 ∷ []));
  pending = [];
  notifier = record { url = ""; queue = []; resync = false };
  phase = waiting;
  retry = false;
  view = seen (creation node (11 ∷ [])) (subscribed_at store no_resources).view;
}

delivered_run : Steps (subscribed_at store no_resources) delivered
unfolding enqueue
delivered_run =
    next
      (next
        (next (next here (records (creation node (11 ∷ [])) refl))
          (enqueues (creation node (11 ∷ [])) [] refl refl))
        (delivers (creation node (11 ∷ [])) [] refl refl refl))
      (settles refl refl refl)

Steps-converge_example : delivered.view node ≡ some (11 ∷ [])
Steps-converge_example =
    Steps-converge store no_resources delivered node (11 ∷ []) store-IsValid delivered_run
      (record { none_pending = refl; none_queued = refl; no_resync = refl; at_rest = refl })
      (live-receive store (creation node (11 ∷ [])) node ∙ rw (beq_self node) refl)

resync-keeps_deleted_example :
    (m : Machine ℕ) × Steps (subscribed_at store no_resources) m
    × IsQuiet m
    × (live m.store node ≡ none)
    × (m.view node ≡ some (10 ∷ []))
resync-keeps_deleted_example =
    resync-keeps_deleted store no_resources node (10 ∷ []) store-IsValid live-node

started_after_failure-Step_example :
    (ev : Event ℕ) × (record (started_after_failure store no_resources) {
      store = receive_event store (deletion node);
      pending = deletion node ∷ [];
    }
      ≡ record (started_after_failure store no_resources) {
        store = receive_event store ev;
        pending = ev ∷ [];
      })
started_after_failure-Step_example =
    started_after_failure-Step store no_resources _ (records (deletion node) refl)

Races-diverge_example :
    (m : Machine ℕ) × Races (subscribed_at store no_resources) m
    × IsQuiet m
    × (live m.store node ≡ none)
    × (m.view node ≡ some (11 ∷ []))
Races-diverge_example = Races-diverge store no_resources node (11 ∷ [])
