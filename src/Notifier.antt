-- ===== src/Notifier.antt =====
-- internal/events/notify.go: the delivery of events to one subscriber. The queue is the buffered
-- channel, oldest first; whether an attempt to notify succeeds is the environment's choice.
pub mod Deliver
pub mod Machine
mod Tests
use modelsrv.Prelude.{
  ℕ, zero, suc, ◌+◌, ◌-◌, ◌*◌, ◌^◌, String, Bool, true, false, Option, none, some, List, [], ◌∷◌,
  ◌++◌, length, ltb, leb, if◌then◌else◌,
}
use modelsrv.Event.{Event}

abbrev pub notify_queue_depth : ℕ
notify_queue_depth = 256

abbrev pub notify_max_attempts : ℕ
notify_max_attempts = 5

-- Durations in milliseconds.
abbrev pub notify_base_backoff : ℕ
notify_base_backoff = 100

abbrev pub notify_max_backoff : ℕ
notify_max_backoff = 5000

-- `notifier`: the subscriber is known by its URL.
pub record Notifier (O : Type 0) : Type 0 where
  pub url : String
  pub queue : List (Event O)
  pub resync : Bool

-- What the environment does with the attempts of one delivery: whether the attempt reaches the
-- subscriber, and whether the notifier is stopped while it waits after a failed one.
pub record Attempts : Type 0 where
  pub reaches : ℕ → Bool
  pub stops : ℕ → Bool

module _ {O : Type 0} where
  -- `newNotifier`
  unfoldable pub new_notifier : String → Notifier O
  new_notifier url = record { url = url; queue = []; resync = false }

  -- `enqueue`: a full queue drops the event and asks for a resync.
  unfoldable pub enqueue : Notifier O → Event O → Notifier O
  enqueue n ev =
      if ltb (length n.queue) notify_queue_depth
      then record n { queue = n.queue ++ (ev ∷ []) }
      else record n { resync = true }

  -- `drainQueue`, when nothing is enqueued meanwhile: `Machine` takes its loop one by one.
  unfoldable pub drain_queue : Notifier O → Notifier O
  drain_queue n = record n { queue = [] }

-- `notifyBackoff`
unfoldable pub notify_backoff : ℕ → ℕ
notify_backoff attempt =
    let d = notify_base_backoff * 2 ^ (attempt - 1) in
    if ltb notify_max_backoff d then notify_max_backoff else d

-- `deliver`, from an attempt on: the loop has no bound of its own, so it takes fuel, and `none`
-- means that the fuel ran out. The result is whether the event reached the subscriber.
unfoldable pub deliver_from : ℕ → Attempts → ℕ → Option Bool
deliver_from zero env attempt = none
deliver_from (suc fuel) env attempt =
    let again = deliver_from fuel env (attempt + 1) in
    if env.reaches attempt
    then some true
    else if leb notify_max_attempts attempt
    then some false
    else if env.stops attempt
    then some false
    else again

unfoldable pub deliver : Attempts → Option Bool
unfolding deliver_from
deliver env = deliver_from notify_max_attempts env 1
