-- ===== src/Latest/Valid.antt =====
-- The store's invariant: its order lists the live resources, each once, and each entry is under
-- its own key.
mod Order
unfoldable pub use Order.*
use modelsrv.Prelude.{
  ◌≡◌, refl, ◌≢◌, List, [], ◌∷◌, ◌++◌, Option, none, some, Bool, true, false, ◌||◌, Bool-cases,
  Option-cases, inl, inr, Comparable, ◌==◌, arith, if◌then◌else◌, ◌∙◌, sym, ap,
}
use mathlib.Core.Option.{some-injective}
use modelsrv.Prelude.Dict.{lookup, insert, delete, lookup-insert, lookup-delete}
use modelsrv.Event.{Event, Uuid}
use modelsrv.Event.Kind.{ResourceType}
use modelsrv.Event.Wire.{Operation, delete_operation, operation_eq}
use modelsrv.View.{ResourceKey, resource_key_eq, event_key}
use modelsrv.Latest.{
  LatestStateStore, new_latest_state_store, receive, receive_delete, receive_upsert,
  remove_from_order,
}

abbrev pub is_some {ℓ} : {A : Type ℓ} → Option A → Bool
is_some none = false
is_some (some a) = true

module _ {O : Type 0} where
  pub record IsValid (s : LatestStateStore O) : Type 0 where
    pub keyed : (k : ResourceKey) (ev : Event O) → lookup k s.state ≡ some ev → event_key ev ≡ k
    pub listed : (k : ResourceKey) → contains k s.order ≡ is_some (lookup k s.state)
    pub distinct : Distinct s.order

  pub new_latest_state_store-IsValid : IsValid new_latest_state_store
  unfolding new_latest_state_store lookup contains
  new_latest_state_store-IsValid = record {
    keyed = λ k ev e. cc;
    listed = λ k. refl;
    distinct = tt;
  }

  receive_delete-IsValid :
      (s : LatestStateStore O) (key : ResourceKey) → IsValid s → IsValid (receive_delete s key)
  unfolding receive_delete
  receive_delete-IsValid s key v = elim (Option-cases (lookup key s.state)) [
    | inl e ↦ rw (e, receive_delete) v
    | inr (ev, e) ↦
        rw (e, receive_delete)
          (record {
            keyed = λ k w h.
                v.keyed k w
                  (ground (arith, lookup-delete key k s.state, resource_key_eq.equals_iff key k));
            listed = λ k. ground (
              arith,
              contains-remove_from_order key k s.order v.distinct,
              v.listed k,
              lookup-delete key k s.state,
            );
            distinct = Distinct-remove_from_order key s.order v.distinct;
          })
  ]

  receive_upsert-IsValid :
      (s : LatestStateStore O) (key : ResourceKey) (ev : Event O)
      → event_key ev ≡ key
      → IsValid s
      → IsValid (receive_upsert s key ev)
  unfolding receive_upsert
  receive_upsert-IsValid s key ev n v = record {
    keyed = λ k w h. elim (Bool-cases (key == k)) [
      | inl same ↦
          let l : lookup k (insert key ev s.state) ≡ some ev =
            lookup-insert key k ev s.state ∙ rw same in
          ap event_key (some-injective w ev (sym h ∙ l))
          ∙ (n ∙ (resource_key_eq.equals_iff key k).0 same)
      | inr other ↦ v.keyed k w (ground (arith, lookup-insert key k ev s.state))
    ];
    listed = λ k. ground (
      arith,
      contains-snoc k key s.order,
      v.listed k,
      lookup-insert key k ev s.state,
      resource_key_eq.equals_iff key k,
    );
    distinct = ground (arith, Distinct-snoc key s.order v.distinct, v.distinct, v.listed key);
  }

  -- `Receive` keeps the store valid, whatever the operation: its order lists exactly the
  -- resources that have an event, each once, and each event is stored under its own resource.
  pub receive-IsValid :
      (s : LatestStateStore O) (rt : ResourceType) (op : Operation) (id : Uuid) (objects : List O)
      → IsValid s
      → IsValid (receive s rt op id objects)
  unfolding receive
  receive-IsValid s rt op id objects v = elim (Bool-cases (op == delete_operation)) [
    | inl e ↦ rw e (receive_delete-IsValid s (rt, id) v)
    | inr e ↦ rw e (receive_upsert-IsValid s (rt, id) _ refl v)
  ]
