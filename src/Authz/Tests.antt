-- ===== src/Authz/Tests.antt =====
-- Callers with and without headers.
use modelsrv.Prelude.{◌≡◌, refl, true, false, not, ◌&&◌, some, [], ◌∷◌, ◌==◌, arith}
use modelsrv.Prelude.Dict.{lookup}
use modelsrv.Event.Kind.{
  resource_type_eq, resource_type_beq, node_resource, system_resource, api_resource,
  unknown_resource_type,
}
use modelsrv.Event.Wire.{value_or}
use modelsrv.Authz.{
  Config, Principal, Annotations, owner_identities_key, has_text, is_public, can_see,
  parse_public_resource_types,
}
use modelsrv.Authz.Lists.{parse_list, parse_groups, split, trimmed, trim_left, trim_right}
use modelsrv.Authz.Visible.{
  can_see-anonymous, Includes, can_see_mono, any_names, parse_public_resource_types_lem,
}

abbrev config : Config
config = record {
  auditor_identity = "";
  auditor_group = "auditors";
  public_types = (node_resource, true) ∷ [];
}

abbrev nobody : Principal
nobody = record { subject = ""; groups = []; auditor_header = false }

abbrev member : Principal
member = record { subject = "ann"; groups = "team" ∷ []; auditor_header = false }

abbrev auditor : Principal
auditor = record member { groups = "team" ∷ "auditors" ∷ [] }

abbrev owned : Annotations
owned = some ((owner_identities_key, "ann; bob") ∷ [])

owner_list : parse_list " ann;; bob ," ≡ "ann" ∷ "bob" ∷ []
unfolding parse_list split trimmed trim_left trim_right
owner_list = refl

group_list : parse_groups "a b , c," ≡ "a b" ∷ "c" ∷ []
unfolding parse_groups split trimmed trim_left trim_right
group_list = refl

can_see-anonymous_example :
    can_see config nobody system_resource owned ≡ is_public config system_resource
can_see-anonymous_example = can_see-anonymous config nobody system_resource owned refl refl refl

member-Includes : Includes member.groups auditor.groups
unfolding has_text
member-Includes s h = ground (arith, h)

member_sees : can_see config member node_resource owned ≡ true
unfolding can_see lookup resource_type_beq
member_sees = refl

can_see_mono_example : can_see config auditor node_resource owned ≡ true
can_see_mono_example =
    can_see_mono config member auditor node_resource owned refl refl member-Includes member_sees

parse_public_resource_types_lem_example :
    value_or (lookup api_resource (parse_public_resource_types "Node, API")) false ≡ (
      any_names api_resource (parse_list "Node, API")
      && not (api_resource == unknown_resource_type))
parse_public_resource_types_lem_example = parse_public_resource_types_lem "Node, API" api_resource
