-- ===== src/Filter.antt =====
-- pkg/eventfilter/chain.go and sink.go: the chain of filters between the model and the event manager.
-- A filter changes the model that it is given, so it is a function of the model and one event to the
-- model and the events that it returns; what its calls bring about, calls of the chain on their own
-- events included, is in that model. The chain may have no model. uuid.New() is an argument, and so
-- is the constructor of a filter rule with its two setters.
pub mod Batches
pub mod Registered
pub mod Changes
mod Tests
use modelsrv.Prelude.{
  String, Bool, true, false, Option, none, some, List, [], ◌∷◌, ◌++◌, ◌==◌, nat_eq, if◌then◌else◌,
}
use modelsrv.Event.{Event, Uuid}
use modelsrv.Event.Kind.{ResourceType}
use modelsrv.Event.Wire.{Operation}
use modelsrv.Model.State.{ModelData, Objects, Result, after}
use modelsrv.Model.Catalog.{add_filter_rule, delete_filter_rule_by_id, get_filter_rule_by_id}

-- `FilterFunc`
abbrev pub FilterFunc : Type 0 → Type 0
FilterFunc O = Option (ModelData O) → Event O → Option (ModelData O) × List (Event O)

-- `Filter`
pub record Filter (O : Type 0) : Type 0 where
  pub display_name : String
  pub description : String
  pub fn : FilterFunc O

-- `entry`
pub record Entry (O : Type 0) : Type 0 where
  pub id : Uuid
  pub filter : Filter O

-- `chainData`
pub record Chain (O : Type 0) : Type 0 where
  pub model : Option (ModelData O)
  pub filters : List (Entry O)

-- What the chain asks of the filter rules: the getters of the objects, and
-- `NewFilterRule(id)` with its name and description set.
pub record RuleMaker (O : Type 0) : Type 0 where
  pub objects : Objects O
  pub new_filter_rule : Uuid → String → String → O

module _ {O : Type 0} where
  -- `NewChain`
  unfoldable pub new_chain : Option (ModelData O) → Chain O
  new_chain m = record { model = m; filters = [] }

  -- `syncFilterRuleToModel` on a model: a rule that is there stays, and an error is only logged.
  unfoldable pub sync_rule : RuleMaker O → ModelData O → Entry O → ModelData O
  sync_rule r m e = elim (get_filter_rule_by_id m e.id) [
    | some rule ↦ m
    | none ↦ after m (
        add_filter_rule r.objects m
          (r.new_filter_rule e.id e.filter.display_name e.filter.description))
  ]

  -- `syncFilterRuleToModel`
  unfoldable pub sync_filter_rule_to_model :
      RuleMaker O → Option (ModelData O) → Entry O → Option (ModelData O)
  sync_filter_rule_to_model r none e = none
  sync_filter_rule_to_model r (some m) e = some (sync_rule r m e)

  -- `RegisterFilter`
  unfoldable pub register_filter : RuleMaker O → Chain O → Uuid → Filter O → Chain O
  register_filter r c id f =
      let e : Entry O = record { id = id; filter = f } in
      record { model = sync_filter_rule_to_model r c.model e; filters = c.filters ++ (e ∷ []) }

  -- `Register`
  unfoldable pub register : RuleMaker O → Chain O → Uuid → FilterFunc O → Chain O
  register r c id fn =
      register_filter r c id (record { display_name = ""; description = ""; fn = fn })

  -- `removeFilter`: the entries without the first that has the identifier, if there is one.
  unfoldable pub remove_filter : Uuid → List (Entry O) → Option (List (Entry O))
  remove_filter id [] = none
  remove_filter id (e ∷ es) = elim (e.id == id) [
    | true ↦ some es
    | false ↦ elim (remove_filter id es) [ none ↦ none | some rest ↦ some (e ∷ rest) ]
  ]

  -- `removeFilterRuleFromModel`
  unfoldable pub remove_filter_rule_from_model : Option (ModelData O) → Uuid → Option (ModelData O)
  remove_filter_rule_from_model none id = none
  remove_filter_rule_from_model (some m) id = some (after m (delete_filter_rule_by_id m id))

  -- `Unregister`
  unfoldable pub unregister : Chain O → Uuid → Chain O
  unregister c id = elim (remove_filter id c.filters) [
    | none ↦ c
    | some es ↦ record { model = remove_filter_rule_from_model c.model id; filters = es }
  ]

  sync_all : RuleMaker O → Option (ModelData O) → List (Entry O) → Option (ModelData O)
  sync_all r m [] = m
  sync_all r m (e ∷ es) = sync_all r (sync_filter_rule_to_model r m e) es

  -- `SetModel`
  unfoldable pub set_model : RuleMaker O → Chain O → Option (ModelData O) → Chain O
  unfolding sync_all
  set_model r c m = record { model = sync_all r m c.filters; filters = c.filters }

  -- One filter over a batch: each event finds the model as the ones before have left it.
  unfoldable pub filter_batch :
      FilterFunc O → Option (ModelData O) → List (Event O) → Option (ModelData O) × List (Event O)
  filter_batch fn m [] = (m, [])
  filter_batch fn m (ev ∷ evs) =
      let (u, out) = fn m ev in let (w, rest) = filter_batch fn u evs in (w, out ++ rest)

  -- The loop of `Apply`.
  unfoldable pub apply_entries :
      List (Entry O) → Option (ModelData O) → List (Event O) → Option (ModelData O) × List (Event O)
  apply_entries [] m current = (m, current)
  apply_entries (e ∷ es) m current =
      let (u, next) = filter_batch e.filter.fn m current in apply_entries es u next

  -- `Apply`
  unfoldable pub apply : Chain O → Event O → Option (ModelData O) × List (Event O)
  apply c ev = elim c.filters [
    | [] ↦ (c.model, ev ∷ [])
    | e ∷ es ↦ apply_entries (e ∷ es) c.model (ev ∷ [])
  ]

  -- The loop of `filteringSink.Receive`: a receiver `S` downstream, and whether it took the event.
  unfoldable pub forward : {S : Type 0} → (S → Event O → S × Bool) → S → List (Event O) → S × Bool
  forward receive s [] = (s, true)
  forward receive s (ev ∷ evs) =
      let rest = forward receive (receive s ev).0 evs in
      if (receive s ev).1 then rest else receive s ev

  -- `filteringSink.Receive`: the model that the filters leave, and what the receiver says.
  unfoldable pub filtering_receive :
      {S : Type 0}
      → (S → Event O → S × Bool)
      → Chain O
      → S
      → ResourceType
      → Operation
      → Uuid
      → List O
      → Option (ModelData O) × (S × Bool)
  filtering_receive receive c s res_type op resource_id objects =
      let ev : Event O = record {
        resource_type = res_type;
        operation = op;
        resource_id = resource_id;
        objects = objects;
      } in
      let (m, outs) = apply c ev in (m, forward receive s outs)
