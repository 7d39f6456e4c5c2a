-- ===== src/Manager/CatchUp/Names.antt =====
-- Stored events name resources and operations as texts; a replay of them is the replay of the events.
use modelsrv.Prelude.{
  ℕ, ◌≡◌, refl, ap, ◌∙◌, Option, none, some, List, [], ◌∷◌, ◌++◌, arith, ◌==◌, string_eq,
  Bool-cases, inl, inr, if◌then◌else◌, beq_self, beq_ne, ◌≢◌, nat_eq,
}
use modelsrv.Event.{StoredEvent, Uuid, new_stored_event}
use modelsrv.Event.Kind.{ResourceType, resource_type_eq}
use modelsrv.Event.Wire.{
  Operation, unknown_operation, create_operation, update_operation, delete_operation, operation_eq,
  wire_kind, wire_operation,
}
use modelsrv.Event.RoundTrip.{wire_kind-injective}
use modelsrv.View.{ResourceKey, resource_key_eq, event_key, outcome, last_update, last_of}
use modelsrv.Latest.Valid.{is_some}
use modelsrv.Latest.Replay.{updates}
use modelsrv.Manager.Query.{TailResourceKey, tail_resource_key_eq, tail_key, in_tail}
use modelsrv.Manager.Log.{Entry, stored, events_of}

-- The text key of a resource.
abbrev pub wire_key : ResourceKey → TailResourceKey
wire_key (rt, id) = (wire_kind rt, id)

-- Two resources have one text key only if they are one.
pub wire_key_beq : (j k : ResourceKey) → (wire_key j == wire_key k) ≡ (j == k)
wire_key_beq (rt, id) (ru, jd) = elim (Bool-cases (rt == ru)) [
  | inl e ↦ rw (e, (resource_type_eq.equals_iff rt ru).0 e, beq_self (wire_kind ru))
  | inr e ↦
      let ne : wire_kind rt ≢ wire_kind ru =
        λ h. ground (arith, (resource_type_eq.equals_iff rt ru).1 (wire_kind-injective rt ru h)) in
      rw (e, beq_ne (wire_kind rt) (wire_kind ru) ne)
]

deletes : (op : Operation) → (wire_operation op == "Delete") ≡ (op == delete_operation)
unfolding wire_operation
deletes unknown_operation = refl
deletes create_operation = refl
deletes update_operation = refl
deletes delete_operation = refl

module _ {O : Type 0} where
  -- What a stored event does to the resource that it names.
  abbrev pub stored_outcome : StoredEvent O → Option (List O)
  stored_outcome ev = if ev.operation == "Delete" then none else some ev.objects

  abbrev pub stored_updates : List (StoredEvent O) → List (TailResourceKey × Option (List O))
  stored_updates [] = []
  stored_updates (ev ∷ evs) = (tail_key ev, stored_outcome ev) ∷ stored_updates evs

  stored_outcome_lem :
      (seq at : ℕ) (rt : ResourceType) (op : Operation) (id : Uuid) (objects : List O)
      → stored_outcome (new_stored_event seq at rt op id objects)
        ≡ (if op == delete_operation then none else some objects)
  unfolding new_stored_event
  stored_outcome_lem seq at rt op id objects = rw (deletes op)

  pub stored_updates-append :
      (xs ys : List (StoredEvent O))
      → stored_updates (xs ++ ys) ≡ stored_updates xs ++ stored_updates ys
  stored_updates-append [] ys = refl
  stored_updates-append (x ∷ xs) ys =
      ap (◌∷◌ (tail_key x, stored_outcome x)) (stored_updates-append xs ys)

  -- The update that a new stored event makes.
  pub stored_update_lem :
      (seq at : ℕ) (rt : ResourceType) (op : Operation) (id : Uuid) (objects : List O)
      (rest : List (StoredEvent O)) (k : ResourceKey)
      → last_update (stored_updates (new_stored_event seq at rt op id objects ∷ rest)) (wire_key k)
        ≡ last_of
            (last_update (stored_updates rest) (wire_key k))
            ((rt, id) == k)
            (if op == delete_operation then none else some objects)
  unfolding last_update new_stored_event
  stored_update_lem seq at rt op id objects rest k = λ i.
      last_of (last_update (stored_updates rest) (wire_key k)) (wire_key_beq (rt, id) k i)
        (stored_outcome_lem seq at rt op id objects i)

  pub last_update-stored :
      (xs : List (Entry O)) (k : ResourceKey)
      → last_update (stored_updates (stored xs)) (wire_key k)
        ≡ last_update (updates (events_of xs)) k
  unfolding last_update
  last_update-stored [] k = refl
  last_update-stored (x ∷ xs) k =
      stored_update_lem x.seq x.at x.event.resource_type x.event.operation x.event.resource_id
        x.event.objects (stored xs) k
      ∙ ap (λ l. last_of l (event_key x.event == k) (outcome x.event)) (last_update-stored xs k)

  pub in_tail-last_update :
      (key : TailResourceKey) (tail : List (StoredEvent O))
      → in_tail key tail ≡ is_some (last_update (stored_updates tail) key)
  unfolding in_tail last_update
  in_tail-last_update key [] = refl
  in_tail-last_update key (ev ∷ tail) = ground (arith, in_tail-last_update key tail)
