-- ===== src/Manager/Query.antt =====
-- internal/events/manager.go: QueryEvents.
use modelsrv.Prelude.{
  ℕ, String, Bool, true, false, not, ◌||◌, Option, none, some, List, [], ◌∷◌, ◌++◌, ltb, leb, ◌==◌,
  nat_eq, string_eq, pair_beq, pair_beq_iff, Comparable, length, if◌then◌else◌, is_nonpositive,
  to_ℕ,
}
use modelsrv.Event.{Event, StoredEvent, EventQuery, Uuid, new_stored_event}
use modelsrv.Event.Wire.{create_operation, wire_kind, wire_operation}
use modelsrv.History.{snapshot, compaction_boundary}
use modelsrv.Latest.{get_events}
use modelsrv.Manager.{EventManager}

-- `tailResourceKey`
abbrev pub TailResourceKey : Type 0
TailResourceKey = String × Uuid

instance abbrev pub tail_resource_key_eq : Comparable TailResourceKey
tail_resource_key_eq = record {
  equals = pair_beq string_eq nat_eq;
  equals_iff = pair_beq_iff string_eq nat_eq;
}

-- A filter that is not set, or that the value passes.
abbrev pub passes {ℓ} : {A : Type ℓ} → (A → Bool) → Option A → Bool
passes test none = true
passes test (some a) = test a

-- 100 results, unless the query asks for another number.
abbrev pub limit_of_query : EventQuery → ℕ
limit_of_query q = if is_nonpositive q.limit then 100 else to_ℕ q.limit

module _ {O : Type 0} where
  abbrev pub tail_key : StoredEvent O → TailResourceKey
  tail_key ev = (ev.resource_type, ev.resource_id)

  -- Whether the set `inTail` has the key.
  unfoldable pub in_tail : TailResourceKey → List (StoredEvent O) → Bool
  in_tail key [] = false
  in_tail key (ev ∷ tail) = tail_key ev == key || in_tail key tail

  -- The Creates for the live resources that the tail does not mention.
  unfoldable pub synthesize : List (StoredEvent O) → ℕ → ℕ → List (Event O) → List (StoredEvent O)
  synthesize tail seq at [] = []
  synthesize tail seq at (ev ∷ evs) =
      if in_tail (wire_kind ev.resource_type, ev.resource_id) tail
      then synthesize tail seq at evs
      else new_stored_event seq at ev.resource_type create_operation ev.resource_id ev.objects
        ∷ synthesize tail seq at evs

  -- `matches`
  unfoldable pub matches : EventQuery → StoredEvent O → Option (StoredEvent O)
  matches q ev =
      if leb ev.sequence_id q.since_seq
      then none
      else if not (passes (λ op. ev.operation == wire_operation op) q.operation)
      then none
      else if not (passes (λ rt. ev.resource_type == wire_kind rt) q.resource_type)
      then none
      else if not (passes (λ id. ev.resource_id == id) q.resource_id)
      then none
      else some (if q.include_payload then ev else record ev { objects = [] })

  -- The entries of a list that match.
  unfoldable pub matching : EventQuery → List (StoredEvent O) → List (StoredEvent O)
  matching q [] = []
  matching q (ev ∷ evs) = elim (matches q ev) [
    | none ↦ matching q evs
    | some entry ↦ entry ∷ matching q evs
  ]

  -- The loop over the tail: it ends once there are `limit` results.
  unfoldable pub page_from :
      EventQuery → ℕ → List (StoredEvent O) → List (StoredEvent O) → List (StoredEvent O)
  page_from q limit results [] = results
  page_from q limit results (ev ∷ tail) = elim (matches q ev) [
    | none ↦ page_from q limit results tail
    | some entry ↦
        let results' = results ++ (entry ∷ []) in
        elim (leb limit (length results')) [
          | true ↦ results'
          | false ↦ page_from q limit results' tail
        ]
  ]

  -- The prefix before the tail.
  unfoldable pub synthetic_of : EventManager O → EventQuery → List (StoredEvent O)
  synthetic_of e q =
      let (compaction_seq, compaction_at) = compaction_boundary e.history_tail in
      if ltb q.since_seq compaction_seq
      then synthesize (snapshot e.history_tail) compaction_seq compaction_at
          (get_events e.latest_state)
      else []

  -- `QueryEvents`
  unfoldable pub query_events : EventManager O → EventQuery → List (StoredEvent O)
  query_events e q =
      page_from q (limit_of_query q) (matching q (synthetic_of e q)) (snapshot e.history_tail)
