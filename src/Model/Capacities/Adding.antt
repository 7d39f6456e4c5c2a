-- ===== src/Model/Capacities/Adding.antt =====
-- When `AddCapacity` stores a capacity.
use modelsrv.Prelude.{
  [], ◌∷◌, ◌++◌, ◌∙◌, if◌then◌else◌, ◌↔◌, ◌⊎◌, ◌≡◌, refl, true, false, Option, none, some, ◌==◌,
  nat_eq, arith, Option-cases, Bool-cases, inl, inr,
}
use modelsrv.Prelude.Dict.{Dict, lookup, delete, lookup-insert}
use modelsrv.Event.{Event, Uuid}
use modelsrv.Event.Kind.{resource_type_beq, code, capacity_resource}
use modelsrv.Model.Stores.{store_eq, store_beq, kind_of, capacities_by_uuid}
use modelsrv.Model.State.{
  ModelData, Objects, CapacityTupleKey, ModelError, add_operation, ok, err, capacity_tuple_conflict,
}
use modelsrv.Model.Capacities.{
  capacity_tuple_key_eq, capacity_tuple_key_from, taken, vacate, inserted, insert_capacity,
  validate_capacity, add_capacity,
}
use modelsrv.Model.Capacities.Tuples.{HasTuples}

module _ {O : Type 0} (ob : Objects O) where
  vacate-some :
      (id : Uuid) (key : CapacityTupleKey) (prev : Option O) (tuples : Dict CapacityTupleKey Uuid)
      → taken ob id (lookup key tuples) ≡ false
      → (ts : Dict CapacityTupleKey Uuid) × (vacate ob id key prev tuples ≡ some ts)
  unfolding vacate
  vacate-some id key none tuples free = (tuples, refl)
  vacate-some id key (some p) tuples free =
      let old = capacity_tuple_key_from ob p in
      elim (Bool-cases (old == key)) [
        | inl e ↦ (tuples, ground (arith, e))
        | inr e ↦ (delete old tuples, ground (arith, e, free))
      ]

  insert_capacity-free :
      (m : ModelData O) (c : O)
      → taken ob
          (ob.get_id capacities_by_uuid c)
          (lookup (capacity_tuple_key_from ob c) m.capacities_by_tuple)
        ≡ false
      → (ts : Dict CapacityTupleKey Uuid) × (insert_capacity ob m c ≡ ok (inserted ob m c ts))
  unfolding insert_capacity
  insert_capacity-free m c free =
      let (ts, w) =
        vacate-some (ob.get_id capacities_by_uuid c) (capacity_tuple_key_from ob c)
          (lookup (ob.get_id capacities_by_uuid c) (m.stores capacities_by_uuid))
          m.capacities_by_tuple free in
      (ts, rw (insert_capacity, free, w) refl)

  insert_capacity-taken :
      (m : ModelData O) (c : O)
      → taken ob
          (ob.get_id capacities_by_uuid c)
          (lookup (capacity_tuple_key_from ob c) m.capacities_by_tuple)
        ≡ true
      → insert_capacity ob m c ≡ err capacity_tuple_conflict
  unfolding insert_capacity
  insert_capacity-taken m c t = rw (insert_capacity, t) refl

  -- No other capacity has the tuple.
  abbrev pub IsFree : ModelData O → O → Type 0
  IsFree m c =
      (j : Uuid) (d : O)
      → lookup j (m.stores capacities_by_uuid) ≡ some d
      → capacity_tuple_key_from ob d ≡ capacity_tuple_key_from ob c
      → j ≡ ob.get_id capacities_by_uuid c

  taken-IsFree :
      (m : ModelData O) (c : O)
      → HasTuples ob m
      → (taken ob
            (ob.get_id capacities_by_uuid c)
            (lookup (capacity_tuple_key_from ob c) m.capacities_by_tuple)
          ≡ false)
        ↔ IsFree m c
  taken-IsFree m c v =
      let id : Uuid = ob.get_id capacities_by_uuid c in
      let key = capacity_tuple_key_from ob c in
      (
        λ f j d e k. ground (arith, f, e, k, v.indexed j d, nat_eq.equals_iff j id),
        λ h. elim (Option-cases (lookup key m.capacities_by_tuple)) [
          | inl n ↦ rw n refl
          | inr (j, n) ↦
              let (d, l, k) = v.backed key j n in
              ground (arith, n, h j d l k, nat_eq.equals_iff j id)
        ],
      )

  -- The capacity is stored under its identifier and its tuple is its own; the other capacities stay,
  -- and one event of it is sent, a Create or an Update as there was none or one.
  abbrev pub IsStored : ModelData O → O → ModelData O → Type 0
  IsStored m c u =
      let id : Uuid = ob.get_id capacities_by_uuid c in
      let sent : Event O = record {
        resource_type = capacity_resource;
        operation = add_operation (lookup id (m.stores capacities_by_uuid));
        resource_id = id;
        objects = c ∷ [];
      } in
      ((other : Uuid)
        → lookup other (u.stores capacities_by_uuid)
          ≡ (if id == other then some c else lookup other (m.stores capacities_by_uuid)))
      × (lookup (capacity_tuple_key_from ob c) u.capacities_by_tuple ≡ some id)
      × (u.sink ≡ m.sink ++ (sent ∷ []))

  inserted-IsStored :
      (m : ModelData O) (c : O) (ts : Dict CapacityTupleKey Uuid)
      → IsStored m c (inserted ob m c ts)
  unfolding store_beq kind_of resource_type_beq code
  inserted-IsStored m c ts =
      let id : Uuid = ob.get_id capacities_by_uuid c in
      let key = capacity_tuple_key_from ob c in
      (
        λ other. lookup-insert id other c (m.stores capacities_by_uuid),
        lookup-insert key key id ts ∙ ground (arith, capacity_tuple_key_eq.equals_iff key key),
        refl,
      )

  -- A valid capacity is stored with its tuple if no other capacity has its context, resource type
  -- and category, so that an update never conflicts with what it replaces, and it is refused as a
  -- conflict if another has. The index of tuples is taken to be exact.
  pub add_capacity_lem :
      (m : ModelData O) (c : O)
      → HasTuples ob m
      → validate_capacity ob c m ≡ none
      → (IsFree m c × ((u : ModelData O) × (add_capacity ob m c ≡ ok u) × IsStored m c u))
        ⊎ ((¬ IsFree m c) × (add_capacity ob m c ≡ err capacity_tuple_conflict))
  unfolding add_capacity
  add_capacity_lem m c v i =
      elim (Bool-cases (
        taken ob (ob.get_id capacities_by_uuid c)
          (lookup (capacity_tuple_key_from ob c) m.capacities_by_tuple))) [
            | inl h ↦ inr (
              λ f. ground (arith, h, (taken-IsFree m c v).1 f),
              rw (add_capacity, i) (insert_capacity-taken m c h),
            )
            | inr h ↦
                let (ts, q) = insert_capacity-free m c h in
                inl (
                  (taken-IsFree m c v).0 h,
                  (inserted ob m c ts, rw (add_capacity, i) q, inserted-IsStored m c ts),
                )
          ]

  -- What `AddCapacity` returns: an error, or the model with the capacity stored.
  pub add_capacity-cases :
      (m : ModelData O) (c : O)
      → ((e : ModelError) × (add_capacity ob m c ≡ err e))
        ⊎ ((ts : Dict CapacityTupleKey Uuid) × (add_capacity ob m c ≡ ok (inserted ob m c ts)))
  unfolding add_capacity insert_capacity
  add_capacity-cases m c =
      let id : Uuid = ob.get_id capacities_by_uuid c in
      let key = capacity_tuple_key_from ob c in
      let prev = lookup id (m.stores capacities_by_uuid) in
      elim (Option-cases (validate_capacity ob c m)) [
        | inr (x, e) ↦ inl (x, rw (add_capacity, e) refl)
        | inl e ↦ elim (Bool-cases (taken ob id (lookup key m.capacities_by_tuple))) [
          | inl t ↦ inl (capacity_tuple_conflict, rw (add_capacity, e, insert_capacity, t) refl)
          | inr t ↦ elim (Option-cases (vacate ob id key prev m.capacities_by_tuple)) [
            | inl w ↦
                inl (capacity_tuple_conflict, rw (add_capacity, e, insert_capacity, t, w) refl)
            | inr (ts, w) ↦ inr (ts, rw (add_capacity, e, insert_capacity, t, w) refl)
          ]
        ]
      ]
