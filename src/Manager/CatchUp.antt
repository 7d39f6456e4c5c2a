-- ===== src/Manager/CatchUp.antt =====
-- What a client that replays the result of QueryEvents holds.
mod Names
mod Above
mod Prefix
pub use Names.{wire_key, stored_updates}
pub use Above.{everything}
use modelsrv.Prelude.{
  ℕ, zero, suc, ◌+◌, ◌-◌, ◌≤◌, ◌<◌, ◌≡◌, refl, ap, ap₂, subst, sym, ◌∙◌, Option, none, some, Bool,
  true, false, List, [], ◌∷◌, ◌++◌, arith, length, Option-cases, Bool-cases, inl, inr, ◌⊎◌,
  if◌then◌else◌, ℤ, drop, take, take-append-drop, ltb,
}
use native.Mathlib.Decide.{dec_lt}
use modelsrv.Event.{Event, StoredEvent, EventQuery}
use modelsrv.View.{
  ResourceKey, resource_key_eq, replay, replay-updated, last_update, last_update-append, updated,
  updated_twice,
}
use modelsrv.Prelude.Dict.{lookup}
use modelsrv.History.{ring_limit, snapshot, compaction_boundary}
use modelsrv.History.Retained.{recent, boundary}
use modelsrv.Latest.{LatestStateStore, new_latest_state_store, get_events}
use modelsrv.Latest.Valid.{IsValid, new_latest_state_store-IsValid}
use modelsrv.Latest.Replay.{
  live, updates, updates-append, receive_all, receive_all-IsValid, live-receive_all, no_resources,
}
use modelsrv.Manager.{EventManager}
use modelsrv.Manager.Query.{
  TailResourceKey, tail_resource_key_eq, query_events, synthesize, synthetic_of, in_tail, matching,
  limit_of_query,
}
use modelsrv.Manager.Log.{Entry, stored, events_of, events_of-append, HasSeen}
use modelsrv.Manager.Page.{query_events-all}
use Names.{stored_updates-append, last_update-stored, in_tail-last_update}
use Above.{
  AllAbove, AllAbove-mono, matching-everything, AllAbove-synthesize, AllAbove-boundary,
  AllAbove-zero, boundary_zero, length-stored, drop-stored,
}
use Prefix.{prefix_update}

-- A client that has nothing yet.
abbrev pub nothing : {O : Type 0} → TailResourceKey → Option (List O)
nothing k = none

module _ {O : Type 0} (e : EventManager O) (h : List (Entry O)) (s : HasSeen e h) where
  -- How many entries are gone from the ring.
  abbrev gone : ℕ
  gone = length (stored h) - ring_limit e.history_limit

  live_state :
      (k : ResourceKey)
      → live e.latest_state k ≡ updated (last_update (updates (events_of h)) k) none
  unfolding new_latest_state_store lookup
  live_state k = rw s.latest (
      live-receive_all new_latest_state_store (events_of h) k
      ∙ replay-updated (updates (events_of h)) (live new_latest_state_store) k)

  latest-IsValid : IsValid e.latest_state
  latest-IsValid =
      rw s.latest
        (receive_all-IsValid new_latest_state_store (events_of h) new_latest_state_store-IsValid)

  tail_update :
      (k : ResourceKey)
      → last_update (stored_updates (snapshot e.history_tail)) (wire_key k)
        ≡ last_update (updates (events_of (drop gone h))) k
  tail_update k =
      ap (λ t. last_update (stored_updates t) (wire_key k)) (s.tail.tail_is ∙ drop-stored gone h)
      ∙ last_update-stored (drop gone h) k

  -- What the whole history says of a resource: what the tail says, or else what went before.
  whole_update :
      (k : ResourceKey)
      → last_update (updates (events_of h)) k
        ≡ updated_twice
            (last_update (updates (events_of (take gone h))) k)
            (last_update (updates (events_of (drop gone h))) k)
  whole_update k =
      ap (λ l. last_update (updates (events_of l)) k) (sym (take-append-drop gone h))
      ∙ (ap (λ l. last_update (updates l) k) (events_of-append (take gone h) (drop gone h))
          ∙ (ap (λ l. last_update l k)
                (updates-append (events_of (take gone h)) (events_of (drop gone h)))
              ∙ last_update-append (updates (events_of (take gone h)))
                  (updates (events_of (drop gone h))) k))

  -- A resource that the tail mentions is as its last entry there says.
  tail_decides :
      (k : ResourceKey) (y : Option (List O))
      → last_update (stored_updates (snapshot e.history_tail)) (wire_key k) ≡ some y
      → live e.latest_state k ≡ y
  tail_decides k y t =
      live_state k
      ∙ (ap (λ l. updated l none) (whole_update k)
          ∙ ap
              (λ l.
                updated (updated_twice (last_update (updates (events_of (take gone h))) k) l) none)
              (sym (tail_update k) ∙ t))

  -- The prefix and the tail together say of every resource what the store holds.
  prefix_and_tail :
      (seq at : ℕ) (k : ResourceKey)
      → let tail = snapshot e.history_tail in
        let prefix = synthesize tail seq at (get_events e.latest_state) in
        replay (stored_updates (prefix ++ tail)) nothing (wire_key k) ≡ live e.latest_state k
  prefix_and_tail seq at k =
      let tail = snapshot e.history_tail in
      let prefix = synthesize tail seq at (get_events e.latest_state) in
      let p = last_update (stored_updates prefix) (wire_key k) in
      let says : replay (stored_updates (prefix ++ tail)) nothing (wire_key k)
          ≡ updated (updated_twice p (last_update (stored_updates tail) (wire_key k))) none =
        replay-updated (stored_updates (prefix ++ tail)) nothing (wire_key k)
        ∙ ap (λ l. updated l none)
            (ap (λ l. last_update l (wire_key k)) (stored_updates-append prefix tail)
              ∙ last_update-append (stored_updates prefix) (stored_updates tail) (wire_key k)) in
      says ∙ elim (Option-cases (last_update (stored_updates tail) (wire_key k))) [
        | inl t ↦
            ap (λ l. updated (updated_twice p l) none) t
            ∙ prefix_update e.latest_state tail seq at k latest-IsValid
                (in_tail-last_update (wire_key k) tail ∙ rw t)
        | inr (y, t) ↦ ap (λ l. updated (updated_twice p l) none) t ∙ sym (tail_decides k y t)
      ]

  -- Nothing is gone while the boundary is zero, and then the tail says it all.
  tail_alone :
      (k : ResourceKey)
      → gone ≡ 0
      → replay (stored_updates (snapshot e.history_tail)) nothing (wire_key k)
        ≡ live e.latest_state k
  tail_alone k z =
      replay-updated (stored_updates (snapshot e.history_tail)) nothing (wire_key k)
      ∙ (ap (λ l. updated l none)
            (tail_update k ∙ ap (λ n. last_update (updates (events_of (drop n h))) k) z)
          ∙ sym (live_state k))

  -- The boundary, and the entries above it.
  boundary_lem :
      compaction_boundary e.history_tail ≡ boundary (ring_limit e.history_limit) (stored h)
  boundary_lem = s.tail.boundary_is

  tail-AllAbove :
      (since : ℕ)
      → since ≤ (compaction_boundary e.history_tail).0
      → AllAbove since (snapshot e.history_tail)
  tail-AllAbove since b =
      AllAbove-mono since (compaction_boundary e.history_tail).0 (snapshot e.history_tail) b (
        rw (s.tail.tail_is, s.tail.boundary_is)
          (AllAbove-boundary (ring_limit e.history_limit) e.sequence_number h s.rising))

  -- The result of a query for everything that the limit does not cut.
  uncut :
      (since : ℕ) (limit : ℤ) (prefix : List (StoredEvent O))
      → synthetic_of e (everything since limit) ≡ prefix
      → AllAbove since prefix
      → AllAbove since (snapshot e.history_tail)
      → length prefix + length (snapshot e.history_tail) ≤ limit_of_query (everything since limit)
      → query_events e (everything since limit) ≡ prefix ++ snapshot e.history_tail
  uncut since limit prefix p a t room =
      let q = everything since limit in
      let mp : matching q (synthetic_of e q) ≡ prefix =
        ap (matching q) p ∙ matching-everything since limit prefix a in
      query_events-all e q (rw mp room)
      ∙ ap₂ ◌++◌ mp (matching-everything since limit (snapshot e.history_tail) t)

  below_boundary :
      (since : ℕ) (limit : ℤ)
      → since < (compaction_boundary e.history_tail).0
      → synthetic_of e (everything since limit)
        ≡ synthesize
            (snapshot e.history_tail)
            (compaction_boundary e.history_tail).0
            (compaction_boundary e.history_tail).1
            (get_events e.latest_state)
  unfolding synthetic_of
  below_boundary since limit b =
      let t : ltb since (compaction_boundary e.history_tail).0 ≡ true = ground arith in rw t

  from_boundary :
      (since : ℕ) (limit : ℤ)
      → (compaction_boundary e.history_tail).0 ≤ since
      → synthetic_of e (everything since limit) ≡ []
  unfolding synthetic_of
  from_boundary since limit b =
      let t : ltb since (compaction_boundary e.history_tail).0 ≡ false = ground arith in rw t

  -- A client with nothing that asks for everything after a number below the boundary, or from the
  -- start, and replays the result, holds of every resource exactly what the server holds, if the
  -- limit does not cut the result.
  pub replay-query_events :
      (since : ℕ) (limit : ℤ) (k : ResourceKey)
      → (since < (compaction_boundary e.history_tail).0) ⊎ (since ≡ 0)
      → length (synthetic_of e (everything since limit)) + length (snapshot e.history_tail)
        ≤ limit_of_query (everything since limit)
      → replay (stored_updates (query_events e (everything since limit))) nothing (wire_key k)
        ≡ live e.latest_state k
  replay-query_events since limit k far room =
      let tail = snapshot e.history_tail in
      let seq = (compaction_boundary e.history_tail).0 in
      let at = (compaction_boundary e.history_tail).1 in
      let reads = λ (r : List (StoredEvent O)). replay (stored_updates r) nothing (wire_key k) in
      elim (dec_lt since seq) [
        | yes b ↦
            let p = below_boundary since limit b in
            ap reads (
              uncut since limit (synthesize tail seq at (get_events e.latest_state)) p
                (AllAbove-synthesize since tail seq at (get_events e.latest_state) b)
                (tail-AllAbove since (omega arith))
                (subst (λ l. length l + length tail ≤ limit_of_query (everything since limit)) p
                  room))
            ∙ prefix_and_tail seq at k
        | no f ↦
            let z : seq ≡ 0 = omega arith in
            let p = from_boundary since limit (omega arith) in
            ap reads (
              uncut since limit [] p tt (tail-AllAbove since (omega arith)) (
                subst (λ l. length l + length tail ≤ limit_of_query (everything since limit)) p
                  room))
            ∙ tail_alone k (
                boundary_zero (ring_limit e.history_limit) e.sequence_number h s.rising
                  (ap (λ (b : ℕ × ℕ). b.0) (sym boundary_lem) ∙ z))
      ]
