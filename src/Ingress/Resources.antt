-- ===== src/Ingress/Resources.antt =====
-- The resources as pkg/ingress builds them: what it sets on a new object of each kind. A reference to a
-- resource is its identifier; where the code embeds the object that the model has, it is a `Ref`.
use modelsrv.Prelude.{String, Bool, Option, some, List, [], ◌∷◌, ◌==◌, nat_eq}
use modelsrv.Prelude.Dict.{Dict}
use modelsrv.Event.{Uuid, nil}
use modelsrv.Model.Stores.{
  Store, store_eq, contexts_by_uuid, context_types_by_uuid, nodes_by_uuid, node_types_by_uuid,
  systems_by_uuid, system_instances_by_uuid, apis_by_uuid, api_instances_by_uuid,
  components_by_uuid, component_instances_by_uuid, findings_by_uuid, finding_types_by_uuid,
  artifacts_by_uuid, artifact_instances_by_uuid, products_by_uuid, permission_specs_by_uuid,
  role_specs_by_uuid, permissions_by_uuid, roles_by_uuid, bindings_by_uuid, filter_rules_by_uuid,
  merge_rules_by_uuid, capabilities_by_uuid, parameters_by_uuid, capacity_resource_types_by_uuid,
  capacities_by_uuid,
}
use modelsrv.Model.State.{Objects}
use modelsrv.Resolve.{ResourceRef}
use modelsrv.Ingress.Lists.{Version, ProductionVersion, ApiType}

-- The fields that almost all kinds have; a description that is not given is empty.
pub record Common : Type 0 where
  pub id : Uuid
  pub display_name : String
  pub description : String
  pub annotations : Dict String String

-- A reference, and whether the resource was in the model when it was made.
pub record Ref : Type 0 where
  pub id : Uuid
  pub embedded : Bool

-- `SubjectRef`
pub data Subject : Type 0 where
  group_subject identity_subject : Ref → Subject

-- What is set besides, by kind.
pub data Details : Type 0 where
  context_type node_type finding_type permission_spec filter_rule merge_rule : Details
  context : Option Uuid → Option Uuid → Details
  node : Option Uuid → Details
  system : Bool → Version → Option Uuid → Details
  system_instance api_instance component_instance : Uuid → Option Uuid → Details
  api : ApiType → Version → Uuid → Details
  component : Version → Uuid → List Uuid → List Uuid → Details
  finding : List ResourceRef → Details
  artifact : String → Details
  artifact_instance : Option Ref → Details
  product : Option Uuid → List ProductionVersion → Details
  role_spec : List Ref → Details
  permission : Uuid → Details
  role : Uuid → Ref → List Ref → List ResourceRef → Details
  binding : Ref → Subject → Details
  capability : List (Uuid × Version) → Details
  parameter : List String → Details
  capacity_resource_type : String → Details
  capacity : Uuid → Uuid → String → String → Details

pub record Resource : Type 0 where
  pub common : Common
  pub details : Details

-- The map that the Add method of the kind stores in.
abbrev pub map_of : Details → Store
map_of context_type = context_types_by_uuid
map_of node_type = node_types_by_uuid
map_of finding_type = finding_types_by_uuid
map_of permission_spec = permission_specs_by_uuid
map_of filter_rule = filter_rules_by_uuid
map_of merge_rule = merge_rules_by_uuid
map_of (context a b) = contexts_by_uuid
map_of (node a) = nodes_by_uuid
map_of (system a v b) = systems_by_uuid
map_of (system_instance a b) = system_instances_by_uuid
map_of (api_instance a b) = api_instances_by_uuid
map_of (component_instance a b) = component_instances_by_uuid
map_of (api t v a) = apis_by_uuid
map_of (component v a as' bs) = components_by_uuid
map_of (finding refs) = findings_by_uuid
map_of (artifact h) = artifacts_by_uuid
map_of (artifact_instance a) = artifact_instances_by_uuid
map_of (product a vs) = products_by_uuid
map_of (role_spec as') = role_specs_by_uuid
map_of (permission a) = permissions_by_uuid
map_of (role a b as' refs) = roles_by_uuid
map_of (binding a b) = bindings_by_uuid
map_of (capability vs) = capabilities_by_uuid
map_of (parameter ss) = parameters_by_uuid
map_of (capacity_resource_type u) = capacity_resource_types_by_uuid
map_of (capacity t c g n) = capacities_by_uuid

abbrev resources_of : Details → List ResourceRef
resources_of (finding refs) = refs
resources_of d = []

abbrev ids_of : List ResourceRef → List (Option Uuid)
ids_of [] = []
ids_of (ref ∷ refs) = some ref.resource_id ∷ ids_of refs

abbrev context_of : Details → Uuid
context_of (capacity t c g n) = c
context_of d = nil

abbrev type_of : Details → Uuid
type_of (capacity t c g n) = t
type_of d = nil

abbrev category_of : Details → String
category_of (capacity t c g n) = g
category_of d = ""

abbrev amount_of : Details → String
amount_of (capacity t c g n) = n
amount_of d = ""

-- The getters that the model calls; the argument is what `ParseAmount` accepts.
abbrev pub resources : (String → Bool) → Objects Resource
resources parses_amount = record {
  get_id = λ s r. r.common.id;
  is_a = λ s r. map_of r.details == s;
  get_display_name = λ r. r.common.display_name;
  get_resources = λ r. ids_of (resources_of r.details);
  get_context_id = λ r. context_of r.details;
  get_capacity_resource_type_id = λ r. type_of r.details;
  get_category = λ r. category_of r.details;
  get_amount = λ r. amount_of r.details;
  parses_amount = parses_amount;
}
