-- ===== src/Phase0/Tests.antt =====
-- A context whose type and parent come later, and a node without a type.
use modelsrv.Prelude.{
  ℕ, String, ◌≡◌, refl, ◌≢◌, ◌+◌, ◌*◌, true, Option, none, some, List, [], ◌∷◌, ◌==◌, string_eq,
  nat_eq, if◌then◌else◌, arith,
}
use modelsrv.Event.{Uuid, nil}
use modelsrv.Event.Kind.{resource_type_beq, code}
use modelsrv.Model.Stores.{
  Store, store_eq, store_beq, kind_of, contexts_by_uuid, context_types_by_uuid, nodes_by_uuid,
  findings_by_uuid, finding_types_by_uuid,
}
use modelsrv.Model.State.{ModelData, Objects, new_model}
use modelsrv.Model.Calls.{Call, adds, deletes}
use modelsrv.FindingKinds.{FindingKind, context_type_missing, context_parent_not_found}
use modelsrv.Resolve.{ResourceRef}
use modelsrv.Phase0.{Checks, reconcile_all}
use modelsrv.Phase0.Settles.{Check, type_check, parent_check, node_check, kind_for, IsNamespace}
use modelsrv.Phase0.Checked.{Agrees}
use modelsrv.Phase0.Agrees.{reconcile_all-Agrees}
use modelsrv.Model.Apply.Replica.{AllTyped}
use modelsrv.Phase0.Filtered.{AllOthers, IsChecked, filtered_all, filtered_all-new_model}

record Item : Type 0 where
  id : Uuid
  map : Store
  type_id : Uuid
  parent_id : Uuid
  name : String
  refs : List ResourceRef

abbrev items : Objects Item
items = record {
  get_id = λ s x. x.id;
  is_a = λ s x. x.map == s;
  get_display_name = λ x. x.name;
  get_resources = λ x. [];
  get_context_id = λ x. nil;
  get_capacity_resource_type_id = λ x. nil;
  get_category = λ x. "";
  get_amount = λ x. "";
  parses_amount = λ text. true;
}

abbrev refs_of : List ResourceRef → List (Option ResourceRef)
refs_of [] = []
refs_of (ref ∷ refs) = some ref ∷ refs_of refs

abbrev number : FindingKind → ℕ
number kind =
    if kind == context_type_missing then 1 else if kind == context_parent_not_found then 2 else 3

abbrev checks : Checks Item
checks = record {
  types = record {
    objects = items;
    get_description = λ x. "";
    new_finding_type = λ id name description. record {
      id = id;
      map = finding_types_by_uuid;
      type_id = nil;
      parent_id = nil;
      name = name;
      refs = [];
    };
    type_id_for_kind = λ kind. number kind;
  };
  get_context_type_id = λ x. x.type_id;
  get_parent_id = λ x. x.parent_id;
  get_node_type_id = λ x. x.type_id;
  get_node_type = λ x. none;
  get_finding_type_id = λ x. x.type_id;
  get_resources = λ x. refs_of x.refs;
  new_finding = λ id type_id desc refs. record {
    id = id;
    map = findings_by_uuid;
    type_id = type_id;
    parent_id = nil;
    name = "";
    refs = refs;
  };
  finding_id = λ subject kind. 4 * subject + number kind;
}

apart :
    (subject other : Uuid) (check that : Check)
    → 4 * subject + number (kind_for check) ≡ 4 * other + number (kind_for that)
    → (subject ≡ other) × (check ≡ that)
apart subject other type_check type_check e = (omega arith, refl)
apart subject other type_check parent_check e = absurd (omega arith)
apart subject other type_check node_check e = absurd (omega arith)
apart subject other parent_check type_check e = absurd (omega arith)
apart subject other parent_check parent_check e = (omega arith, refl)
apart subject other parent_check node_check e = absurd (omega arith)
apart subject other node_check type_check e = absurd (omega arith)
apart subject other node_check parent_check e = absurd (omega arith)
apart subject other node_check node_check e = (omega arith, refl)

positive : (kind : FindingKind) → number kind ≢ 0
positive kind e = ground (arith, e)

checks-IsNamespace : IsNamespace checks
checks-IsNamespace = record {
  not_nil = λ subject kind e. positive kind (omega arith);
  distinct = apart;
  makes = λ id type_id desc refs. refl;
}

abbrev item : Store → Uuid → Uuid → Uuid → Item
item s id type_id parent_id = record {
  id = id;
  map = s;
  type_id = type_id;
  parent_id = parent_id;
  name = "";
  refs = [];
}

abbrev calls : List (Call Item)
calls =
    adds contexts_by_uuid (item contexts_by_uuid 1 5 2)
    ∷ adds nodes_by_uuid (item nodes_by_uuid 3 nil nil)
    ∷ adds context_types_by_uuid (item context_types_by_uuid 5 nil nil)
    ∷ adds contexts_by_uuid (item contexts_by_uuid 2 5 nil)
    ∷ deletes contexts_by_uuid 2
    ∷ []

calls-AllTyped : AllTyped items calls
unfolding store_beq kind_of resource_type_beq code
calls-AllTyped = (refl, (refl, (refl, (refl, (tt, tt)))))

calls-AllOthers : AllOthers checks calls
calls-AllOthers = (λ e. cc, (λ e. cc, (λ e. cc, (λ e. cc, (λ e. cc, tt)))))

abbrev landscape : ModelData Item
landscape = filtered_all checks new_model calls

landscape-IsChecked : IsChecked checks landscape
landscape-IsChecked =
    filtered_all-new_model checks calls checks-IsNamespace calls-AllTyped calls-AllOthers

filtered_all-new_model_example : IsChecked checks landscape
filtered_all-new_model_example =
    filtered_all-new_model checks calls checks-IsNamespace calls-AllTyped calls-AllOthers

reconcile_all-Agrees_example : Agrees checks (reconcile_all checks landscape)
reconcile_all-Agrees_example =
    reconcile_all-Agrees checks checks-IsNamespace landscape landscape-IsChecked.keyed_contexts
      landscape-IsChecked.keyed_nodes
