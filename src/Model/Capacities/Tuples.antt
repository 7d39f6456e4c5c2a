-- ===== src/Model/Capacities/Tuples.antt =====
-- The tuples of capacities: no two stored capacities have the same one.
use modelsrv.Prelude.{
  [], ◌≡◌, Bool, false, Option, none, some, ◌==◌, nat_eq, if◌then◌else◌, arith, Option-cases,
  Bool-cases, inl, inr,
}
use modelsrv.Prelude.Dict.{Dict, lookup, insert, delete, lookup-insert, lookup-delete}
use modelsrv.Event.{Uuid}
use modelsrv.Event.Kind.{resource_type_beq, code}
use modelsrv.Model.Stores.{store_eq, store_beq, kind_of, capacities_by_uuid}
use modelsrv.Model.State.{ModelData, Objects, CapacityTupleKey, after}
use modelsrv.Model.Capacities.{
  capacity_tuple_key_eq, capacity_tuple_key_from, taken, vacate, insert_capacity, validate_capacity,
  add_capacity, delete_capacity_by_id,
}

module _ {O : Type 0} (ob : Objects O) where
  -- The index maps the tuple of each capacity to the capacity, and maps nothing else.
  pub record IsIndexed (capacities : Dict Uuid O) (tuples : Dict CapacityTupleKey Uuid)
      : Type 0 where
    pub indexed :
        (id : Uuid) (c : O)
        → lookup id capacities ≡ some c
        → lookup (capacity_tuple_key_from ob c) tuples ≡ some id
    pub backed :
        (key : CapacityTupleKey) (id : Uuid)
        → lookup key tuples ≡ some id
        → (c : O) × (lookup id capacities ≡ some c) × (capacity_tuple_key_from ob c ≡ key)

  abbrev pub HasTuples : ModelData O → Type 0
  HasTuples m = IsIndexed (m.stores capacities_by_uuid) m.capacities_by_tuple

  pub empty-IsIndexed : IsIndexed [] []
  unfolding lookup
  empty-IsIndexed = record {
    indexed = λ id c e. absurd (none_is_none e);
    backed = λ key id e. absurd (none_is_none e);
  }
    where
      none_is_none : {A : Type 0} {a : A} → none ≡ some a → ⊥
      none_is_none e = cc

  delete-IsIndexed :
      (capacities : Dict Uuid O) (tuples : Dict CapacityTupleKey Uuid) (id : Uuid) (prev : O)
      → IsIndexed capacities tuples
      → lookup id capacities ≡ some prev
      → IsIndexed (delete id capacities) (delete (capacity_tuple_key_from ob prev) tuples)
  delete-IsIndexed capacities tuples id prev v e = record {
    indexed = λ j c h.
        let gone = capacity_tuple_key_from ob prev in
        let key = capacity_tuple_key_from ob c in
        ground (
          arith,
          h,
          e,
          lookup-delete id j capacities,
          lookup-delete gone key tuples,
          v.indexed j c,
          v.indexed id prev,
          capacity_tuple_key_eq.equals_iff gone key,
          nat_eq.equals_iff id j,
        );
    backed = λ key j h.
        let gone = capacity_tuple_key_from ob prev in
        let (c, l, k) = v.backed key j (ground (arith, h, lookup-delete gone key tuples)) in
        (
          c,
          ground (
            arith,
            h,
            e,
            l,
            k,
            lookup-delete id j capacities,
            lookup-delete gone key tuples,
            capacity_tuple_key_eq.equals_iff gone key,
            nat_eq.equals_iff id j,
          ),
          k,
        );
  }

  -- Whether the tuple is the one that an updated capacity had.
  abbrev vacated : Option O → CapacityTupleKey → Bool
  vacated none k = false
  vacated (some p) k = capacity_tuple_key_from ob p == k

  -- The tuples after the insertion.
  lookup-vacate :
      (id : Uuid) (key k : CapacityTupleKey) (prev : Option O)
      (tuples ts : Dict CapacityTupleKey Uuid)
      → vacate ob id key prev tuples ≡ some ts
      → lookup k (insert key id ts)
        ≡ (if key == k then some id else if vacated prev k then none else lookup k tuples)
  unfolding vacate
  lookup-vacate id key k none tuples ts e = ground (arith, e, lookup-insert key k id ts)
  lookup-vacate id key k (some p) tuples ts e =
      let old = capacity_tuple_key_from ob p in
      ground (
        arith,
        e,
        lookup-insert key k id ts,
        lookup-delete old k tuples,
        capacity_tuple_key_eq.equals_iff old key,
        capacity_tuple_key_eq.equals_iff old k,
        capacity_tuple_key_eq.equals_iff key k,
      )

  insert-IsIndexed :
      (capacities : Dict Uuid O) (tuples ts : Dict CapacityTupleKey Uuid) (id : Uuid) (c : O)
      → IsIndexed capacities tuples
      → let key = capacity_tuple_key_from ob c in
        taken ob id (lookup key tuples) ≡ false
        → vacate ob id key (lookup id capacities) tuples ≡ some ts
        → IsIndexed (insert id c capacities) (insert key id ts)
  insert-IsIndexed capacities tuples ts id c v free w =
      let key = capacity_tuple_key_from ob c in
      record {
        indexed = λ j d h.
            let mine = capacity_tuple_key_from ob d in
            elim (Option-cases (lookup id capacities)) [
              | inl n ↦ ground (
                arith,
                h,
                n,
                free,
                lookup-insert id j c capacities,
                nat_eq.equals_iff id j,
                v.indexed j d,
                capacity_tuple_key_eq.equals_iff key mine,
                lookup-vacate id key mine (lookup id capacities) tuples ts w,
              )
              | inr (p, n) ↦ ground (
                arith,
                h,
                n,
                free,
                lookup-insert id j c capacities,
                nat_eq.equals_iff id j,
                v.indexed j d,
                v.indexed id p,
                capacity_tuple_key_eq.equals_iff key mine,
                capacity_tuple_key_eq.equals_iff (capacity_tuple_key_from ob p) mine,
                lookup-vacate id key mine (lookup id capacities) tuples ts w,
              )
            ];
        backed = λ k j h.
            let found = lookup-vacate id key k (lookup id capacities) tuples ts w in
            elim (Bool-cases (key == k)) [
              | inl e ↦ (
                c,
                ground
                    (arith, h, e, found, lookup-insert id j c capacities, nat_eq.equals_iff id j),
                (capacity_tuple_key_eq.equals_iff key k).0 e,
              )
              | inr e ↦
                  let (d, l, q) = v.backed k j (ground (arith, h, e, found)) in
                  (
                    d,
                    ground (
                      arith,
                      h,
                      e,
                      found,
                      l,
                      q,
                      lookup-insert id j c capacities,
                      nat_eq.equals_iff id j,
                      capacity_tuple_key_eq.equals_iff (capacity_tuple_key_from ob d) k,
                    ),
                    q,
                  )
            ];
      }

  -- `DeleteCapacityById` keeps the index exact.
  pub delete_capacity_by_id-HasTuples :
      (m : ModelData O) (id : Uuid)
      → HasTuples m
      → HasTuples (after m (delete_capacity_by_id ob m id))
  unfolding delete_capacity_by_id store_beq kind_of resource_type_beq code
  delete_capacity_by_id-HasTuples m id v =
      elim (Option-cases (lookup id (m.stores capacities_by_uuid))) [
        | inl e ↦ rw (after, delete_capacity_by_id, e) v
        | inr (old, e) ↦
            rw (after, delete_capacity_by_id, e)
              (delete-IsIndexed (m.stores capacities_by_uuid) m.capacities_by_tuple id old v e)
      ]

  insert_capacity-HasTuples :
      (m : ModelData O) (c : O) → HasTuples m → HasTuples (after m (insert_capacity ob m c))
  unfolding insert_capacity store_beq kind_of resource_type_beq code
  insert_capacity-HasTuples m c v =
      let id : Uuid = ob.get_id capacities_by_uuid c in
      let key = capacity_tuple_key_from ob c in
      let prev = lookup id (m.stores capacities_by_uuid) in
      elim (Bool-cases (taken ob id (lookup key m.capacities_by_tuple))) [
        | inl t ↦ rw t v
        | inr t ↦ elim (Option-cases (vacate ob id key prev m.capacities_by_tuple)) [
          | inl w ↦ rw (after, insert_capacity, t, w) v
          | inr (ts, w) ↦
              rw (after, insert_capacity, t, w)
                (insert-IsIndexed (m.stores capacities_by_uuid) m.capacities_by_tuple ts id c v t w)
        ]
      ]

  -- `AddCapacity` keeps the index exact, whether it stores a new capacity, replaces one, moves one
  -- to another tuple, or fails.
  pub add_capacity-HasTuples :
      (m : ModelData O) (c : O) → HasTuples m → HasTuples (after m (add_capacity ob m c))
  unfolding add_capacity
  add_capacity-HasTuples m c v = elim (Option-cases (validate_capacity ob c m)) [
    | inl e ↦ rw (after, add_capacity, e) (insert_capacity-HasTuples m c v)
    | inr (x, e) ↦ rw (after, add_capacity, e) v
  ]

  -- Two capacities in the model never share context, resource type and category.
  pub HasTuples-unique :
      (m : ModelData O) (i j : Uuid) (c d : O)
      → HasTuples m
      → lookup i (m.stores capacities_by_uuid) ≡ some c
      → lookup j (m.stores capacities_by_uuid) ≡ some d
      → capacity_tuple_key_from ob c ≡ capacity_tuple_key_from ob d
      → i ≡ j
  HasTuples-unique m i j c d v e f k = ground (arith, v.indexed i c, v.indexed j d, e, f, k)
