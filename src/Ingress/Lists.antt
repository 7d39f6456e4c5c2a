-- ===== src/Ingress/Lists.antt =====
-- pkg/ingress/apply.go, apply_resources.go and apply_iam.go: versions, lists of references and types.
use Prim.Native.Char.{Char}
use Prim.Native.Char as Char
use modelsrv.Prelude.{
  ℕ, ◌+◌, String, Bool, true, false, ◌&&◌, Option, none, some, List, [], ◌∷◌, ◌==◌, string_eq,
  nat_eq, nat_beq, leb, if◌then◌else◌,
}
use modelsrv.Event.{Uuid, nil}
use modelsrv.Event.Kind.{
  ResourceType, resource_type_eq, unknown_resource_type, finding_resource, finding_type_resource,
  filter_rule_resource, merge_rule_resource, capability_resource, parameter_resource,
}
use modelsrv.Event.Wire.{parse_resource_type}
use modelsrv.Resolve.{ResourceRef}
use modelsrv.Ingress.Values.{
  Time, Value, null, text, moment, array, object, Items, end, item, Fields, missing, not_uuid,
  not_text, not_map, not_array, not_time, unknown_resource_kind, bad_api_type, Outcome, done,
  failed, ◌>>=◌, inside, within, Parsers, trim_space, present, string_field, some_uuid,
  parse_uuid_field,
}

-- `common.Version`
pub record Version : Type 0 where
  pub version : String
  pub available_from : Option Time
  pub deprecated_from : Option Time
  pub terminated_from : Option Time

-- `ProductionVersion`
pub record ProductionVersion : Type 0 where
  pub available_from : Option Time
  pub deprecated_from : Option Time
  pub terminated_from : Option Time
  pub artefacts : List Uuid

-- `ApiType`
pub data ApiType : Type 0 where
  unknown_api open_api graph_ql grpc other_api : ApiType

abbrev pub or_empty : Option String → String
or_empty none = ""
or_empty (some s) = s

-- `strings.EqualFold` against a label of ASCII letters: two more code points fold to such letters,
-- the Kelvin sign and the long s.
abbrev folded : ℕ → ℕ
folded c =
    if leb b'A' c && leb c b'Z'
    then c + 32
    else if nat_beq c 8490
    then b'k'
    else if nat_beq c 383
    then b's'
    else c

equal_fold : String → String → Bool
equal_fold String.[] String.[] = true
equal_fold String.[] (String.◌∷◌ d t) = false
equal_fold (String.◌∷◌ c s) String.[] = false
equal_fold (String.◌∷◌ c s) (String.◌∷◌ d t) =
    nat_beq (folded (Char.code c)) (folded (Char.code d)) && equal_fold s t

-- `ParseApiType`
unfoldable pub parse_api_type : String → Outcome ApiType
unfolding equal_fold
parse_api_type s =
    if equal_fold "Unknown" s
    then done unknown_api
    else if equal_fold "OpenAPI" s
    then done open_api
    else if equal_fold "GraphQL" s
    then done graph_ql
    else if equal_fold "GRPC" s
    then done grpc
    else if equal_fold "Other" s
    then done other_api
    else failed (bad_api_type s)

-- The rest of `parseResourceTypeForRef`.
abbrev by_short_name : String → Outcome ResourceType
by_short_name s =
    if s == "Finding"
    then done finding_resource
    else if s == "FindingType"
    then done finding_type_resource
    else if s == "FilterRule"
    then done filter_rule_resource
    else if s == "MergeRule"
    then done merge_rule_resource
    else if s == "Capability"
    then done capability_resource
    else if s == "Parameter"
    then done parameter_resource
    else failed (unknown_resource_kind s)

-- `parseResourceTypeForRef`
unfoldable pub parse_resource_type_for_ref : String → Outcome ResourceType
parse_resource_type_for_ref s =
    let rt = parse_resource_type (trim_space s) in
    if rt == unknown_resource_type then by_short_name (trim_space s) else done rt

module _ (p : Parsers) where
  abbrev time_in : String → Option Value → Outcome (Option Time)
  time_in key none = done none
  time_in key (some (text s)) = parsed (p.parse_time (trim_space s))
    where
      parsed : Option Time → Outcome (Option Time)
      parsed none = failed (not_time key)
      parsed (some t) = done (some t)
  time_in key (some (moment t)) = done (some t)
  time_in key (some v) = failed (not_time key)

  -- `parseOptionalTime`
  unfoldable pub parse_optional_time : Fields → String → Outcome (Option Time)
  parse_optional_time m key = time_in key (present key m)

  -- The end of a version is retired, unless it is terminated.
  abbrev terminated_or_retired : Fields → Option Time → Outcome (Option Time)
  terminated_or_retired m (some t) = done (some t)
  terminated_or_retired m none = parse_optional_time m "retiredFrom"

  abbrev version_in : Fields → Outcome Version
  version_in m = do
    from ← parse_optional_time m "availableFrom"
    deprecated ← parse_optional_time m "deprecatedFrom"
    terminated ← parse_optional_time m "terminatedFrom"
    ended ← terminated_or_retired m terminated
    done (record {
      version = or_empty (string_field p m "version");
      available_from = from;
      deprecated_from = deprecated;
      terminated_from = ended;
    })

  -- `parseVersionSpec`
  unfoldable pub parse_version_spec : Option Value → Outcome Version
  parse_version_spec none = version_in Fields.empty
  parse_version_spec (some null) = version_in Fields.empty
  parse_version_spec (some (object m)) = version_in m
  parse_version_spec (some v) = failed (not_map "version")

  -- The items of a list, each read by a function that is given its index.
  unfoldable pub each : {A : Type 0} → (ℕ → Value → Outcome A) → ℕ → Items → Outcome (List A)
  each read i end = done []
  each read i (item v rest) =
      let others = each read (i + 1) rest in read i v >>= λ a. others >>= λ as'. done (a ∷ as')

  abbrev pub list_in :
      {A : Type 0} → String → (ℕ → Value → Outcome A) → Option Value → Outcome (List A)
  list_in key read none = done []
  list_in key read (some (array items)) = each read 0 items
  list_in key read (some v) = failed (not_array key)

  abbrev uuid_item : String → ℕ → Value → Outcome Uuid
  uuid_item key i (text s) = given (p.parse_uuid (trim_space s))
    where
      given : Option Uuid → Outcome Uuid
      given none = failed (inside key i (not_uuid key))
      given (some id) = done id
  uuid_item key i v = failed (inside key i (not_text key))

  -- `parseProductionVersionMap`
  unfoldable pub parse_production_version_map : Fields → Outcome ProductionVersion
  parse_production_version_map m = do
    from ← parse_optional_time m "availableFrom"
    deprecated ← parse_optional_time m "deprecatedFrom"
    terminated ← parse_optional_time m "terminatedFrom"
    ids ← list_in "artefacts" (uuid_item "artefacts") (present "artefacts" m)
    done (record {
      available_from = from;
      deprecated_from = deprecated;
      terminated_from = terminated;
      artefacts = ids;
    })

  abbrev kind_in : Option String → Outcome ResourceType
  kind_in none = failed (missing "resourceType")
  kind_in (some s) = parse_resource_type_for_ref s

  abbrev resource_ref_item : ℕ → Value → Outcome ResourceRef
  resource_ref_item i (object m) = within "resources" i (do
    id ← parse_uuid_field p m "resourceId"
    rt ← kind_in (string_field p m "resourceType")
    done (record { resource_id = id; resource_type = rt }))
  resource_ref_item i v = failed (inside "resources" i (not_map "resources"))

  -- `parseResourceRefs`
  unfoldable pub parse_resource_refs : Fields → Outcome (List ResourceRef)
  parse_resource_refs spec = list_in "resources" resource_ref_item (present "resources" spec)

  abbrev api_ref_item : String → ℕ → Value → Outcome Uuid
  api_ref_item key i (text s) = within key i (some_uuid p key (p.parse_uuid (trim_space s)))
  api_ref_item key i (object m) = within key i (parse_uuid_field p m "apiId")
  api_ref_item key i v = failed (inside key i (not_text key))

  -- `parseApiRefSlice`
  unfoldable pub parse_api_ref_slice : Fields → String → Outcome (List Uuid)
  parse_api_ref_slice spec key = list_in key (api_ref_item key) (present key spec)

  abbrev shown_item : Value → String
  shown_item (text s) = s
  shown_item v = p.sprint v

  -- A text that has to be a UUID, whatever is wrong with it.
  abbrev pub valid_uuid : String → Option Uuid → Outcome Uuid
  valid_uuid key none = failed (not_uuid key)
  valid_uuid key (some id) = if id == nil then failed (not_uuid key) else done id

  abbrev uuid_string_item : String → ℕ → Value → Outcome Uuid
  uuid_string_item key i v =
      let s : String = trim_space (shown_item v) in
      if s == ""
      then failed (inside key i (missing key))
      else within key i (valid_uuid key (p.parse_uuid s))

  -- `parseUUIDStringList`
  unfoldable pub parse_uuid_string_list : Fields → String → Outcome (List Uuid)
  parse_uuid_string_list spec key = list_in key (uuid_string_item key) (present key spec)
