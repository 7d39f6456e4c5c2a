-- ===== src/Filter/Changes.antt =====
-- RegisterFilter, Unregister and SetModel keep the chain and the rules of its model in step.
use modelsrv.Prelude.{
  ◌≡◌, refl, ◌≢◌, ◌∙◌, Bool, true, false, not, Bool-cases, ◌&&◌, ◌||◌, Option, none, some, List, [],
  ◌∷◌, ◌++◌, ◌==◌, nat_eq, arith, Option-cases, inl, inr, beq_ne,
}
use modelsrv.Event.{Uuid, nil}
use modelsrv.Model.State.{ModelData}
use modelsrv.Filter.{
  Filter, Entry, Chain, RuleMaker, new_chain, sync_rule, sync_filter_rule_to_model, register_filter,
  remove_filter, remove_filter_rule_from_model, unregister, sync_all, set_model,
}
use modelsrv.Filter.Registered.{
  has_rule, has_entry, HasRules, IsRegistered, MakesRules, has_rule-sync_rule, has_rule-delete,
  has_entry-snoc, DistinctIds-snoc, has_entry-remove_filter, DistinctIds-remove_filter,
}

module _ {O : Type 0} where
  pub new_chain-IsRegistered : (m : Option (ModelData O)) → IsRegistered (new_chain m)
  unfolding new_chain has_entry
  new_chain-IsRegistered m = record { no_nil = refl; distinct = tt; has_rules = by_model m }
    where
      by_model : (m : Option (ModelData O)) → HasRules m []
      by_model none = tt
      by_model (some m) = λ id h. absurd (cc h)

  registered_rules :
      (r : RuleMaker O) (m : Option (ModelData O)) (es : List (Entry O)) (e : Entry O)
      → MakesRules r
      → e.id ≢ nil
      → HasRules m es
      → HasRules (sync_filter_rule_to_model r m e) (es ++ (e ∷ []))
  unfolding sync_filter_rule_to_model
  registered_rules r none es e k n h = tt
  registered_rules r (some m) es e k n h =
      λ id i. ground (arith, i, h id, has_rule-sync_rule r m e id k n, has_entry-snoc id es e)

  -- A filter that is registered under a new identifier that is not nil keeps the chain
  -- registered: its filters have distinct identifiers, none nil, and each of them its rule in
  -- the model, if there is one. Rules are made with the identifier that is asked for.
  pub register_filter-IsRegistered :
      (r : RuleMaker O) (c : Chain O) (id : Uuid) (f : Filter O)
      → MakesRules r
      → id ≢ nil
      → has_entry id c.filters ≡ false
      → IsRegistered c
      → IsRegistered (register_filter r c id f)
  unfolding register_filter
  register_filter-IsRegistered r c id f k n fresh v =
      let e : Entry O = record { id = id; filter = f } in
      record {
        no_nil = ground (arith, v.no_nil, has_entry-snoc nil c.filters e, beq_ne id nil n);
        distinct = DistinctIds-snoc c.filters e v.distinct fresh;
        has_rules = registered_rules r c.model c.filters e k n v.has_rules;
      }

  removed_rules :
      (m : Option (ModelData O)) (es fs : List (Entry O)) (gone : Uuid)
      → ((id : Uuid) → has_entry id fs ≡ (not (gone == id) && has_entry id es))
      → HasRules m es
      → HasRules (remove_filter_rule_from_model m gone) fs
  unfolding remove_filter_rule_from_model
  removed_rules none es fs gone k h = tt
  removed_rules (some m) es fs gone k h =
      λ id i. ground (arith, i, h id, k id, has_rule-delete m gone id)

  -- Whether the model, if there is one, has the rule.
  abbrev pub rule_in : Option (ModelData O) → Uuid → Bool
  rule_in none id = false
  rule_in (some m) id = has_rule m id

  rule_in-remove :
      (m : Option (ModelData O)) (gone id : Uuid)
      → rule_in (remove_filter_rule_from_model m gone) id ≡ (not (gone == id) && rule_in m id)
  unfolding remove_filter_rule_from_model
  rule_in-remove none gone id = ground arith
  rule_in-remove (some m) gone id = has_rule-delete m gone id

  -- What is removed was there.
  has_entry-removed :
      (gone : Uuid) (es fs : List (Entry O))
      → remove_filter gone es ≡ some fs
      → has_entry gone es ≡ true
  unfolding remove_filter has_entry
  has_entry-removed gone [] fs e = absurd (cc)
  has_entry-removed gone (x ∷ xs) fs e = elim (Bool-cases (x.id == gone)) [
    | inl h ↦ ground (arith, h, nat_eq.equals_iff x.id gone, nat_eq.equals_iff gone x.id)
    | inr h ↦ elim (Option-cases (remove_filter gone xs)) [
      | inl n ↦ absurd (none_is_none fs (rw (remove_filter, h, n) at e))
      | inr (ys, n) ↦ ground (arith, has_entry-removed gone xs ys n)
    ]
  ]
    where
      none_is_none : (ys : List (Entry O)) → none ≡ some ys → ⊥
      none_is_none ys q = cc

  not_there :
      (c : Chain O) (id i : Uuid)
      → has_entry i c.filters ≡ (not (id == i) && has_entry i c.filters)
      → has_entry id c.filters ≡ (not (id == id) && has_entry id c.filters)
      → rule_in c.model i ≡ (not (has_entry id c.filters && id == i) && rule_in c.model i)
  not_there c id i h g = ground (arith, h, g, nat_eq.equals_iff id id)

  -- `Unregister` keeps a registered chain registered, and takes the filter with the identifier out
  -- of the chain and its rule out of the model, if the chain has the filter; the other filters and
  -- rules stay, and all of them do if it has not.
  pub unregister-IsRegistered :
      (c : Chain O) (id : Uuid)
      → IsRegistered c
      → IsRegistered (unregister c id)
        × ((other : Uuid)
            → (has_entry other (unregister c id).filters
                ≡ (not (id == other) && has_entry other c.filters))
              × (rule_in (unregister c id).model other
                  ≡ (not (has_entry id c.filters && id == other) && rule_in c.model other)))
  unfolding unregister
  unregister-IsRegistered c id v =
      let others = λ (i : Uuid). has_entry-remove_filter id c.filters i v.distinct in
      let distinct = DistinctIds-remove_filter id c.filters v.distinct in
      elim (Option-cases (remove_filter id c.filters)) [
        | inl e ↦
            rw (unregister, e)
              (
                v,
                λ i. (
                  rw e at (others i),
                  not_there c id i (rw e at (others i)) (rw e at (others id)),
                ),
              )
        | inr (fs, e) ↦
            let gone : (i : Uuid) → has_entry i fs ≡ (not (id == i) && has_entry i c.filters) =
              λ i. rw e at (others i) in
            rw (unregister, e)
              (
                record {
                  no_nil = ground (arith, gone nil, v.no_nil);
                  distinct = rw e at distinct;
                  has_rules = removed_rules c.model c.filters fs id gone v.has_rules;
                },
                λ i. (
                  gone i,
                  rule_in-remove c.model id i ∙ rw (has_entry-removed id c.filters fs e) refl,
                ),
              )
      ]

  -- The rules after a synchronisation: those that were there, and those of the entries.
  sync_all-rules :
      (r : RuleMaker O) (m : ModelData O) (es : List (Entry O))
      → MakesRules r
      → has_entry nil es ≡ false
      → (u : ModelData O) × (sync_all r (some m) es ≡ some u)
        × ((id : Uuid) → has_rule u id ≡ (has_entry id es || has_rule m id))
  unfolding sync_all sync_filter_rule_to_model has_entry
  sync_all-rules r m [] k n = (m, refl, λ id. refl)
  sync_all-rules r m (e ∷ es) k n =
      let named : e.id ≢ nil = λ z. ground (arith, n, nat_eq.equals_iff e.id nil, z) in
      let (u, s, h) = sync_all-rules r (sync_rule r m e) es k (ground (arith, n)) in
      (u, s, λ id. ground (arith, h id, has_rule-sync_rule r m e id k named))

  synced_rules :
      (r : RuleMaker O) (m : Option (ModelData O)) (es : List (Entry O))
      → MakesRules r
      → has_entry nil es ≡ false
      → HasRules (sync_all r m es) es
  unfolding sync_all sync_filter_rule_to_model
  synced_rules r none es k n = rw (none_stays es) tt
    where
      none_stays : (es : List (Entry O)) → sync_all r none es ≡ none
      none_stays [] = refl
      none_stays (e ∷ es) = none_stays es
  synced_rules r (some m) es k n =
      let (u, s, h) = sync_all-rules r m es k n in rw s (λ id i. ground (arith, h id, i))

  pub set_model-IsRegistered :
      (r : RuleMaker O) (c : Chain O) (m : Option (ModelData O))
      → MakesRules r
      → IsRegistered c
      → IsRegistered (set_model r c m)
  unfolding set_model
  set_model-IsRegistered r c m k v = record {
    no_nil = v.no_nil;
    distinct = v.distinct;
    has_rules = synced_rules r m c.filters k v.no_nil;
  }
