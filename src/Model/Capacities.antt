-- ===== src/Model/Capacities.antt =====
-- pkg/model/structure_capacity.go and pkg/model/capacity/category.go: capacities, of which there is
-- one for each context, capacity resource type and category.
pub mod Tuples
pub mod Adding
use modelsrv.Prelude.{
  ◌≡◌, ◌↔◌, arith, String, Bool, true, false, not, ◌&&◌, ◌||◌, Option, none, some, List, [], ◌∷◌,
  Comparable, ◌==◌, nat_eq, string_eq, pair_beq, pair_beq_iff, if◌then◌else◌,
}
use modelsrv.Prelude.Dict.{Dict, lookup, insert, delete}
use modelsrv.Event.{Uuid, nil}
use modelsrv.Event.Kind.{capacity_resource}
use modelsrv.Event.Wire.{Operation, delete_operation, create_operation, update_operation}
use modelsrv.Model.Stores.{
  Store, store_eq, capacities_by_uuid, capacity_resource_types_by_uuid, contexts_by_uuid,
}
use modelsrv.Model.State.{
  ModelData, Objects, CapacityTupleKey, ModelError, Result, ok, err, uuid_not_set, invalid_category,
  invalid_amount, resource_type_ref_required, context_ref_required, capacity_tuple_conflict,
  not_found, put_store, receive, add_operation,
}
use modelsrv.Model.Catalog.{get_capacity_resource_type_by_id}
use modelsrv.Model.Landscape.{get_context_by_id}

abbrev pub capacity_tuple_key_beq : CapacityTupleKey → CapacityTupleKey → Bool
capacity_tuple_key_beq k l =
    k.context_id == l.context_id
    && (k.capacity_resource_type_id == l.capacity_resource_type_id && k.category == l.category)

pub capacity_tuple_key_beq_iff :
    (k l : CapacityTupleKey) → (capacity_tuple_key_beq k l ≡ true) ↔ (k ≡ l)
capacity_tuple_key_beq_iff k l = ground (
  arith,
  nat_eq.equals_iff k.context_id l.context_id,
  nat_eq.equals_iff k.capacity_resource_type_id l.capacity_resource_type_id,
  string_eq.equals_iff k.category l.category,
)

instance abbrev pub capacity_tuple_key_eq : Comparable CapacityTupleKey
capacity_tuple_key_eq = record {
  equals = capacity_tuple_key_beq;
  equals_iff = capacity_tuple_key_beq_iff;
}

-- `ParseCategory`: whether the text is a category.
unfoldable pub parse_category : String → Option String
parse_category s = if s == "requested" || (s == "provided" || s == "consumed") then some s else none

-- A check that a value is there.
abbrev pub missing : {A : Type 0} → Option A → Bool
missing none = true
missing (some a) = false

module _ {O : Type 0} (ob : Objects O) where
  -- `capacityTupleKeyFrom`
  unfoldable pub capacity_tuple_key_from : O → CapacityTupleKey
  capacity_tuple_key_from c = record {
    context_id = ob.get_context_id c;
    capacity_resource_type_id = ob.get_capacity_resource_type_id c;
    category = ob.get_category c;
  }

  -- `validateCapacity`: the first check that fails. The capacity is not nil.
  unfoldable pub validate_capacity : O → ModelData O → Option ModelError
  unfolding parse_category
  validate_capacity c m =
      if ob.get_id capacities_by_uuid c == nil
      then some uuid_not_set
      else if missing (parse_category (ob.get_category c))
      then some invalid_category
      else if not (ob.parses_amount (ob.get_amount c))
      then some invalid_amount
      else if ob.get_capacity_resource_type_id c == nil
      then some resource_type_ref_required
      else if missing (get_capacity_resource_type_by_id m (ob.get_capacity_resource_type_id c))
      then some (not_found capacity_resource_types_by_uuid)
      else if ob.get_context_id c == nil
      then some context_ref_required
      else if missing (get_context_by_id m (ob.get_context_id c))
      then some (not_found contexts_by_uuid)
      else none

  -- Whether another capacity has the tuple.
  abbrev pub taken : Uuid → Option Uuid → Bool
  taken id none = false
  taken id (some existing) = not (existing == id)

  -- The tuples without the previous one of an updated capacity, if it had another tuple: `none` is
  -- the conflict.
  vacate :
      Uuid
      → CapacityTupleKey
      → Option O
      → Dict CapacityTupleKey Uuid
      → Option (Dict CapacityTupleKey Uuid)
  unfolding capacity_tuple_key_from
  vacate id key none tuples = some tuples
  vacate id key (some prev) tuples =
      let prev_key : CapacityTupleKey = capacity_tuple_key_from prev in
      if prev_key == key
      then some tuples
      else if taken id (lookup key tuples)
      then none
      else some (delete prev_key tuples)

  -- The capacity stored, under its tuple, and its event sent.
  abbrev pub inserted : ModelData O → O → Dict CapacityTupleKey Uuid → ModelData O
  inserted m c tuples =
      let id : Uuid = ob.get_id capacities_by_uuid c in
      let stored : ModelData O =
        put_store m capacities_by_uuid (insert id c (m.stores capacities_by_uuid)) in
      let indexed : ModelData O = record stored {
        capacities_by_tuple = insert (capacity_tuple_key_from c) id tuples;
      } in
      receive indexed capacity_resource (add_operation (lookup id (m.stores capacities_by_uuid))) id
        (c ∷ [])

  -- The rest of `AddCapacity`, under the lock and after it.
  insert_capacity : ModelData O → O → Result (ModelData O)
  unfolding vacate
  insert_capacity m c =
      let id : Uuid = ob.get_id capacities_by_uuid c in
      let key : CapacityTupleKey = capacity_tuple_key_from c in
      if taken id (lookup key m.capacities_by_tuple)
      then err capacity_tuple_conflict
      else elim (vacate id key (lookup id (m.stores capacities_by_uuid)) m.capacities_by_tuple) [
        | none ↦ err capacity_tuple_conflict
        | some tuples ↦ ok (inserted m c tuples)
      ]

  -- `AddCapacity`
  unfoldable pub add_capacity : ModelData O → O → Result (ModelData O)
  unfolding insert_capacity
  add_capacity m c = elim (validate_capacity c m) [ some e ↦ err e | none ↦ insert_capacity m c ]

  -- `DeleteCapacityById`
  unfoldable pub delete_capacity_by_id : ModelData O → Uuid → Result (ModelData O)
  delete_capacity_by_id m id = elim (lookup id (m.stores capacities_by_uuid)) [
    | none ↦ err (not_found capacities_by_uuid)
    | some prev ↦
        let stored : ModelData O =
          put_store m capacities_by_uuid (delete id (m.stores capacities_by_uuid)) in
        let indexed : ModelData O = record stored {
          capacities_by_tuple = delete (capacity_tuple_key_from prev) m.capacities_by_tuple;
        } in
        ok (receive indexed capacity_resource delete_operation id [])
  ]
