-- ===== src/View.antt =====
-- What a receiver of events holds: for each resource the objects of its last event, if it is live.
-- This is the meaning of events for a subscriber (pkg/model/event_apply.go): Create and Update
-- both set the resource, Delete removes it, also if it is not there.
use modelsrv.Prelude.{
  ◌≡◌, Bool, Option, none, some, List, [], ◌∷◌, ◌++◌, Comparable, ◌==◌, nat_eq, pair_beq, arith,
  pair_beq_iff, if◌then◌else◌, refl,
}
use modelsrv.Event.{Event, Uuid}
use modelsrv.Event.Kind.{ResourceType, resource_type_eq}
use modelsrv.Event.Wire.{delete_operation, operation_eq}

-- `resourceKey` of internal/events/latest_state.go.
abbrev pub ResourceKey : Type 0
ResourceKey = ResourceType × Uuid

instance abbrev pub resource_key_eq : Comparable ResourceKey
resource_key_eq = record {
  equals = pair_beq resource_type_eq nat_eq;
  equals_iff = pair_beq_iff resource_type_eq nat_eq;
}

module _ {O : Type 0} where
  abbrev pub event_key : Event O → ResourceKey
  event_key ev = (ev.resource_type, ev.resource_id)

  -- The effect of an event on the resource that it names.
  abbrev pub outcome : Event O → Option (List O)
  outcome ev = if ev.operation == delete_operation then none else some ev.objects

-- The value after an update, if there is one.
abbrev pub updated {ℓ} : {V : Type ℓ} → Option (Option V) → Option V → Option V
updated (some x) old = x
updated none old = old

-- A later value if there is one, or else this one if it is meant.
abbrev pub last_of {ℓ} : {V : Type ℓ} → Option V → Bool → V → Option V
last_of (some y) hit x = some y
last_of none hit x = if hit then some x else none

abbrev pub updated_twice {ℓ} : {V : Type ℓ} → Option V → Option V → Option V
updated_twice first (some x) = some x
updated_twice first none = first

module _ {K : Type 0} {V : Type 0} ⦃e : Comparable K⦄ where
  -- A view with one key set.
  abbrev pub put : K → Option V → (K → Option V) → K → Option V
  put k x view j = if k == j then x else view j

  -- Updates in order.
  unfoldable pub replay : List (K × Option V) → (K → Option V) → K → Option V
  replay [] view = view
  replay ((k, x) ∷ us) view = replay us (put k x view)

  pub replay-append :
      (us ws : List (K × Option V)) (view : K → Option V)
      → replay (us ++ ws) view ≡ replay ws (replay us view)
  unfolding replay
  replay-append [] ws view = refl
  replay-append ((k, x) ∷ us) ws view = replay-append us ws (put k x view)

  -- The last update of a key decides, and a key with none keeps what it had.
  unfoldable pub last_update : List (K × Option V) → K → Option (Option V)
  last_update [] j = none
  last_update ((k, x) ∷ us) j = last_of (last_update us j) (k == j) x

  pub replay-updated :
      (us : List (K × Option V)) (view : K → Option V) (j : K)
      → replay us view j ≡ updated (last_update us j) (view j)
  unfolding replay last_update
  replay-updated [] view j = refl
  replay-updated ((k, x) ∷ us) view j = ground (arith, replay-updated us (put k x view) j)

  -- Of two runs of updates the second decides where it says something.
  pub last_update-append :
      (us ws : List (K × Option V)) (j : K)
      → last_update (us ++ ws) j ≡ updated_twice (last_update us j) (last_update ws j)
  unfolding last_update
  last_update-append [] ws j = ground arith
  last_update-append ((k, x) ∷ us) ws j = ground (arith, last_update-append us ws j)

abbrev pub update_of : {O : Type 0} → Event O → ResourceKey × Option (List O)
update_of ev = (event_key ev, outcome ev)
