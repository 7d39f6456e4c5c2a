-- ===== src/Authz.antt =====
-- pkg/authz: whether a caller may read a resource. A principal is what the headers say of the
-- caller; an evaluator without rules of its own has the ownership rule alone.
pub mod Lists
pub mod Visible
mod Tests
use modelsrv.Prelude.{
  String, Bool, true, false, not, ◌&&◌, ◌||◌, Option, none, some, List, [], ◌∷◌, ◌==◌, string_eq,
  if◌then◌else◌,
}
use modelsrv.Prelude.Dict.{Dict, lookup, insert}
use modelsrv.Event.Kind.{ResourceType, resource_type_eq, unknown_resource_type}
use modelsrv.Event.Wire.{parse_resource_type, value_or}
use Lists.{parse_list}

-- `Config`
pub record Config : Type 0 where
  pub auditor_identity : String
  pub auditor_group : String
  pub public_types : Dict ResourceType Bool

-- `Principal`
pub record Principal : Type 0 where
  pub subject : String
  pub groups : List String
  pub auditor_header : Bool

-- The annotations of an `Ownable`; `none` is nil.
abbrev pub Annotations : Type 0
Annotations = Option (Dict String String)

abbrev pub owner_identities_key : String
owner_identities_key = "emeland.io/owner-identities"

abbrev pub owner_groups_key : String
owner_groups_key = "emeland.io/owner-groups"

-- `GetValue`
abbrev pub get_value : Dict String String → String → String
get_value records key = value_or (lookup key records) ""

-- `OwnerIdentities`
unfoldable pub owner_identities : Annotations → List String
owner_identities none = []
owner_identities (some a) = parse_list (get_value a owner_identities_key)

-- `OwnerGroups`
unfoldable pub owner_groups : Annotations → List String
owner_groups none = []
owner_groups (some a) = parse_list (get_value a owner_groups_key)

-- The loops that look for an equal text.
unfoldable pub has_text : String → List String → Bool
has_text s [] = false
has_text s (t ∷ ts) = t == s || has_text s ts

-- `InGroup`
unfoldable pub in_group : Principal → String → Bool
unfolding has_text
in_group p group_id = if group_id == "" then false else has_text group_id p.groups

-- The second loop of `Grants`.
unfoldable pub in_any_group : Principal → List String → Bool
in_any_group p [] = false
in_any_group p (g ∷ gs) = in_group p g || in_any_group p gs

-- `OwnershipRule.Grants`
unfoldable pub grants : Principal → Annotations → Bool
grants p a = has_text p.subject (owner_identities a) || in_any_group p (owner_groups a)

-- `HasOwner`
unfoldable pub has_owner : Annotations → Bool
has_owner a = some_text (owner_identities a) || some_text (owner_groups a)
  where
    some_text : List String → Bool
    some_text [] = false
    some_text (s ∷ ss) = true

-- `isAuditor`
unfoldable pub is_auditor : Config → Principal → Bool
is_auditor cfg p =
    p.auditor_header
    || (not (cfg.auditor_identity == "") && p.subject == cfg.auditor_identity)
    || (not (cfg.auditor_group == "") && in_group p cfg.auditor_group)

-- `e.cfg.PublicTypes[rt]`
abbrev pub is_public : Config → ResourceType → Bool
is_public cfg rt = value_or (lookup rt cfg.public_types) false

-- `CanSee`
unfoldable pub can_see : Config → Principal → ResourceType → Annotations → Bool
can_see cfg p rt a =
    if is_public cfg rt then true else if is_auditor cfg p then true else grants p a

-- The loop of `FilterVisible`.
unfoldable pub visible :
    {T : Type 0} → (T → Annotations) → Config → Principal → ResourceType → List T → List T
visible annotations cfg p rt [] = []
visible annotations cfg p rt (item ∷ items) =
    let rest = visible annotations cfg p rt items in
    if can_see cfg p rt (annotations item) then item ∷ rest else rest

-- `FilterVisible`: without an evaluator everything is visible.
unfoldable pub filter_visible :
    {T : Type 0} → (T → Annotations) → Option Config → Principal → ResourceType → List T → List T
filter_visible annotations none p rt items = items
filter_visible annotations (some cfg) p rt items = visible annotations cfg p rt items

-- The loop of `ParsePublicResourceTypes`.
unfoldable pub public_types_from : List String → Dict ResourceType Bool → Dict ResourceType Bool
public_types_from [] types = types
public_types_from (part ∷ parts) types =
    let rt = parse_resource_type part in
    let skipped = public_types_from parts types in
    let taken = public_types_from parts (insert rt true types) in
    if rt == unknown_resource_type then skipped else taken

-- `ParsePublicResourceTypes`
unfoldable pub parse_public_resource_types : String → Dict ResourceType Bool
parse_public_resource_types s = public_types_from (parse_list s) []
