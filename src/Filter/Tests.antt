-- ===== src/Filter/Tests.antt =====
-- A chain with two filters: one drops Deletes, one sends each event twice.
use modelsrv.Prelude.{
  ℕ, ◌≡◌, refl, ◌≢◌, ◌+◌, Bool, true, not, ◌&&◌, false, some, [], ◌∷◌, ◌==◌, nat_eq, if◌then◌else◌,
}
use modelsrv.Event.{Event, Uuid, nil}
use modelsrv.Event.Kind.{node_resource}
use modelsrv.Event.Wire.{create_operation, delete_operation, operation_eq}
use modelsrv.Model.State.{new_model}
use modelsrv.Filter.{
  Filter, Chain, RuleMaker, new_chain, register_filter, unregister, set_model, filter_batch, apply,
  apply_entries, filtering_receive, sync_filter_rule_to_model,
}
use modelsrv.Filter.Batches.{apply-register_filter, Handed, filtering_receive_lem}
use modelsrv.Filter.Registered.{IsRegistered, MakesRules, has_entry}
use modelsrv.Filter.Changes.{
  new_chain-IsRegistered, register_filter-IsRegistered, unregister-IsRegistered,
  set_model-IsRegistered, rule_in,
}

-- An object is its identifier.
abbrev maker : RuleMaker ℕ
maker = record {
  objects = record {
    get_id = λ s x. x;
    is_a = λ s x. true;
    get_display_name = λ x. "";
    get_resources = λ x. [];
    get_context_id = λ x. nil;
    get_capacity_resource_type_id = λ x. nil;
    get_category = λ x. "";
    get_amount = λ x. "";
    parses_amount = λ text. true;
  };
  new_filter_rule = λ id name description. id;
}

maker-MakesRules : MakesRules maker
maker-MakesRules id name description = refl

abbrev no_deletes : Filter ℕ
no_deletes = record {
  display_name = "no deletes";
  description = "";
  fn = λ m ev. (m, if ev.operation == delete_operation then [] else ev ∷ []);
}

abbrev twice : Filter ℕ
twice = record { display_name = "twice"; description = ""; fn = λ m ev. (m, ev ∷ ev ∷ []) }

abbrev one : Chain ℕ
one = register_filter maker (new_chain (some new_model)) 5 no_deletes

five_is_set : 5 ≢ nil
five_is_set e = cc

six_is_set : 6 ≢ nil
six_is_set e = cc

one-IsRegistered : IsRegistered one
unfolding new_chain has_entry
one-IsRegistered =
    register_filter-IsRegistered maker (new_chain (some new_model)) 5 no_deletes maker-MakesRules
      five_is_set refl (new_chain-IsRegistered (some new_model))

six_is_new : has_entry 6 one.filters ≡ false
unfolding register_filter new_chain has_entry
six_is_new = refl

register_filter-IsRegistered_example : IsRegistered (register_filter maker one 6 twice)
register_filter-IsRegistered_example =
    register_filter-IsRegistered maker one 6 twice maker-MakesRules six_is_set six_is_new
      one-IsRegistered

unregister-IsRegistered_example :
    IsRegistered (unregister one 5)
    × ((other : Uuid)
        → (has_entry other (unregister one 5).filters
            ≡ (not (5 == other) && has_entry other one.filters))
          × (rule_in (unregister one 5).model other
              ≡ (not (has_entry 5 one.filters && 5 == other) && rule_in one.model other)))
unregister-IsRegistered_example = unregister-IsRegistered one 5 one-IsRegistered

set_model-IsRegistered_example : IsRegistered (set_model maker one (some new_model))
set_model-IsRegistered_example =
    set_model-IsRegistered maker one (some new_model) maker-MakesRules one-IsRegistered

abbrev creation : Event ℕ
creation = record {
  resource_type = node_resource;
  operation = create_operation;
  resource_id = 1;
  objects = 1 ∷ [];
}

both_filters : (apply (register_filter maker one 6 twice) creation).1 ≡ creation ∷ creation ∷ []
unfolding apply register_filter new_chain apply_entries filter_batch
both_filters = refl

apply-register_filter_example :
    let m = sync_filter_rule_to_model maker one.model (record { id = 6; filter = twice }) in
    let (u, passed) = apply (record { model = m; filters = one.filters }) creation in
    apply (register_filter maker one 6 twice) creation ≡ filter_batch twice.fn u passed
apply-register_filter_example = apply-register_filter maker one 6 twice creation

-- A receiver that takes one event only.
abbrev take_one : ℕ → Event ℕ → ℕ × Bool
take_one n ev = (n + 1, n == 0)

filtering_receive_lem_example :
    let d = register_filter maker one 6 twice in
    let (m, outs) = apply d creation in
    let (u, r) =
      filtering_receive take_one d 0 creation.resource_type creation.operation creation.resource_id
        creation.objects in
    (u ≡ m) × Handed take_one 0 outs r
filtering_receive_lem_example =
    filtering_receive_lem take_one (register_filter maker one 6 twice) 0 creation
