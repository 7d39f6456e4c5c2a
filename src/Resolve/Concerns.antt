-- ===== src/Resolve/Concerns.antt =====
-- Which events the filter looks at, and which references name the event's resource.
use mathlib.Core.List.{Memᴰ}
use mathlib.Core.List.Memᴰ
use modelsrv.Prelude.{
  ◌≡◌, ◌≢◌, ◌↔◌, ◌⊎◌, refl, ap, sym, ◌∙◌, true, false, Option, none, some, List, [], ◌∷◌, ◌==◌,
  nat_eq, string_eq, arith, Bool-cases, Option-cases, inl, inr,
}
use modelsrv.Prelude.Dict.{lookup}
use modelsrv.Event.{Event, nil}
use modelsrv.Event.Kind.{
  resource_type_eq, unknown_resource_type, finding_resource, finding_type_resource,
}
use modelsrv.Event.Wire.{operation_eq, create_operation, update_operation}
use modelsrv.Model.Stores.{Store, store_of}
use modelsrv.Model.State.{ModelData}
use modelsrv.Model.Wiring.{get_by_id_lem}
use modelsrv.Resolve.{ResourceRef, ref_matches_event, exists, resource_exists, is_relevant}
use modelsrv.Resolve.Obsolete.{any_matches}

module _ {O : Type 0} where
  -- A resource that has an identifier and is neither a finding nor a finding type was created or
  -- updated.
  abbrev pub Concerns : Event O → Type 0
  Concerns ev =
      ((ev.operation ≡ create_operation) ⊎ (ev.operation ≡ update_operation))
      × (ev.resource_type ≢ finding_resource)
      × (ev.resource_type ≢ finding_type_resource)
      × (ev.resource_id ≢ nil)

  pub is_relevant-Concerns : (ev : Event O) → (is_relevant ev ≡ true) ↔ Concerns ev
  is_relevant-Concerns ev =
      let creates = operation_eq.equals_iff ev.operation create_operation in
      let updates = operation_eq.equals_iff ev.operation update_operation in
      let finding = resource_type_eq.equals_iff ev.resource_type finding_resource in
      let type = resource_type_eq.equals_iff ev.resource_type finding_type_resource in
      let unset = nat_eq.equals_iff ev.resource_id nil in
      (
        λ h. (
          elim (Bool-cases (ev.operation == create_operation)) [
            | inl c ↦ inl (creates.0 c)
            | inr c ↦ inr (updates.0 (ground (arith, h, c)))
          ],
          λ e. ground (arith, h, finding.1 e),
          λ e. ground (arith, h, type.1 e),
          λ e. ground (arith, h, unset.1 e),
        ),
        λ (op, f, t, n). elim op [
          | inl c ↦ ground (arith, creates.1 c, finding, type, unset, f, t, n)
          | inr u ↦ ground (arith, updates.1 u, finding, type, unset, f, t, n)
        ],
      )

  -- The reference names the event's resource: it has its identifier, and its kind or none.
  abbrev pub Cites : Event O → ResourceRef → Type 0
  Cites ev ref =
      (ref.resource_id ≡ ev.resource_id)
      × ((ref.resource_type ≡ unknown_resource_type) ⊎ (ref.resource_type ≡ ev.resource_type))

  pub ref_matches_event-Cites :
      (ev : Event O) (ref : ResourceRef) → (ref_matches_event (some ref) ev ≡ true) ↔ Cites ev ref
  ref_matches_event-Cites ev ref =
      let same = nat_eq.equals_iff ref.resource_id ev.resource_id in
      let unknown = resource_type_eq.equals_iff ref.resource_type unknown_resource_type in
      let type = resource_type_eq.equals_iff ref.resource_type ev.resource_type in
      (
        λ h. (
          same.0 (ground (arith, h)),
          elim (Bool-cases (ref.resource_type == unknown_resource_type)) [
            | inl u ↦ inl (unknown.0 u)
            | inr u ↦ inr (type.0 (ground (arith, h, u)))
          ],
        ),
        λ (s, t). elim t [
          | inl u ↦ ground (arith, same.1 s, unknown.1 u)
          | inr k ↦ ground (arith, same.1 s, type.1 k)
        ],
      )

  -- One of the references does.
  abbrev pub AnyCites : Event O → List (Option ResourceRef) → Type 0
  AnyCites ev refs = (ref : ResourceRef) × Memᴰ (some ref) refs × Cites ev ref

  any_matches-AnyCites :
      (ev : Event O) (refs : List (Option ResourceRef))
      → any_matches refs ev ≡ true
      → AnyCites ev refs
  any_matches-AnyCites ev [] h = absurd cc
  any_matches-AnyCites ev (none ∷ refs) h =
      let (ref, m, c) = any_matches-AnyCites ev refs h in (ref, Memᴰ.tail m, c)
  any_matches-AnyCites ev (some ref ∷ refs) h =
      elim (Bool-cases (ref_matches_event (some ref) ev)) [
        | inl t ↦ (ref, Memᴰ.head refl, (ref_matches_event-Cites ev ref).0 t)
        | inr n ↦
            let (r, m, c) = any_matches-AnyCites ev refs (ground (arith, h, n)) in
            (r, Memᴰ.tail m, c)
      ]

  AnyCites-any_matches :
      (ev : Event O) (refs : List (Option ResourceRef)) (ref : ResourceRef)
      → Memᴰ (some ref) refs
      → Cites ev ref
      → any_matches refs ev ≡ true
  AnyCites-any_matches ev [] ref m c = absurd (Memᴰ.not-nil m)
  AnyCites-any_matches ev (r ∷ refs) ref (Memᴰ.head q) c =
      let t : ref_matches_event r ev ≡ true =
        ap (λ x. ref_matches_event x ev) (sym q) ∙ (ref_matches_event-Cites ev ref).1 c in
      ground (arith, t)
  AnyCites-any_matches ev (r ∷ refs) ref (Memᴰ.tail m) c =
      ground (arith, AnyCites-any_matches ev refs ref m c)

  pub any_matches_iff :
      (ev : Event O) (refs : List (Option ResourceRef))
      → (any_matches refs ev ≡ true) ↔ AnyCites ev refs
  any_matches_iff ev refs =
      (any_matches-AnyCites ev refs, λ (ref, m, c). AnyCites-any_matches ev refs ref m c)

  -- The event's resource is in the map of its kind.
  abbrev pub IsPresent : ModelData O → Event O → Type 0
  IsPresent m ev =
      (s : Store) × (x : O) × (store_of ev.resource_type ≡ some s)
      × (lookup ev.resource_id (m.stores s) ≡ some x)

  pub resource_exists-IsPresent :
      (m : ModelData O) (ev : Event O)
      → ev.resource_id ≢ nil
      → (resource_exists m ev.resource_id ev.resource_type ≡ true) ↔ IsPresent m ev
  unfolding resource_exists
  resource_exists-IsPresent m ev n =
      let set : (ev.resource_id == nil) ≡ false =
        ground (arith, n, nat_eq.equals_iff ev.resource_id nil) in
      rw set (
        by_store (store_of ev.resource_type) refl,
        λ (s, x, e, l). rw (e, get_by_id_lem m s ev.resource_id, l) refl,
      )
    where
      by_store :
          (found : Option Store)
          → store_of ev.resource_type ≡ found
          → exists m ev.resource_id found ≡ true
          → IsPresent m ev
      by_store none e h = absurd cc
      by_store (some s) e h = elim (Option-cases (lookup ev.resource_id (m.stores s))) [
        | inl l ↦ absurd (ground (arith, h, get_by_id_lem m s ev.resource_id, l))
        | inr (x, l) ↦ (s, x, e, l)
      ]
