-- ===== src/Authz/Visible.antt =====
-- Who sees what.
use modelsrv.Prelude.{
  String, ◌≡◌, refl, ◌∙◌, Bool, true, false, not, ◌&&◌, ◌||◌, none, some, List, [], ◌∷◌, ◌==◌,
  string_eq, arith,
}
use modelsrv.Prelude.Dict.{Dict, lookup, insert, lookup-insert}
use modelsrv.Event.Kind.{ResourceType, resource_type_eq, unknown_resource_type}
use modelsrv.Event.Wire.{parse_resource_type, value_or}
use modelsrv.Authz.{
  Config, Principal, Annotations, owner_identities, owner_groups, has_text, in_group, in_any_group,
  grants, is_auditor, is_public, can_see, public_types_from, parse_public_resource_types,
}
use modelsrv.Authz.Lists.{NoneEmpty, parse_list, parse_list-NoneEmpty}

NoneEmpty-has_text : (ss : List String) → NoneEmpty ss → has_text "" ss ≡ false
unfolding has_text
NoneEmpty-has_text [] n = refl
NoneEmpty-has_text (s ∷ ss) n = ground (arith, n.0, NoneEmpty-has_text ss n.1)

owner_identities-NoneEmpty : (a : Annotations) → NoneEmpty (owner_identities a)
unfolding owner_identities
owner_identities-NoneEmpty none = tt
owner_identities-NoneEmpty (some a) = parse_list-NoneEmpty _

module _ (p : Principal) where
  no_group : (g : String) → p.groups ≡ [] → in_group p g ≡ false
  unfolding in_group has_text
  no_group g e = rw e (ground arith)

  no_groups : (gs : List String) → p.groups ≡ [] → in_any_group p gs ≡ false
  unfolding in_any_group
  no_groups [] e = refl
  no_groups (g ∷ gs) e = ground (arith, no_group g e, no_groups gs e)

  no_auditor :
      (cfg : Config)
      → p.subject ≡ ""
      → p.groups ≡ []
      → p.auditor_header ≡ false
      → is_auditor cfg p ≡ false
  unfolding is_auditor
  no_auditor cfg s g h = ground (
    arith,
    s,
    h,
    no_group cfg.auditor_group g,
    string_eq.equals_iff cfg.auditor_identity "",
    string_eq.equals_iff p.subject cfg.auditor_identity,
  )

-- A caller without a subject, groups or the auditor header, which is what a request without headers
-- gives, sees the public kinds and nothing else, whatever the configuration and the annotations.
pub can_see-anonymous :
    (cfg : Config) (p : Principal) (rt : ResourceType) (a : Annotations)
    → p.subject ≡ ""
    → p.groups ≡ []
    → p.auditor_header ≡ false
    → can_see cfg p rt a ≡ is_public cfg rt
unfolding can_see grants
can_see-anonymous cfg p rt a s g h =
    let subject : has_text p.subject (owner_identities a) ≡ false =
      rw s (NoneEmpty-has_text (owner_identities a) (owner_identities-NoneEmpty a)) in
    ground (arith, no_auditor p cfg s g h, subject, no_groups p (owner_groups a) g)

-- Every text of the first list is in the second.
abbrev pub Includes : List String → List String → Type 0
Includes gs hs = (s : String) → has_text s gs ≡ true → has_text s hs ≡ true

in_group_mono :
    (p q : Principal) (g : String)
    → Includes p.groups q.groups
    → in_group p g ≡ true
    → in_group q g ≡ true
unfolding in_group
in_group_mono p q g i h = ground (arith, h, i g)

in_any_group_mono :
    (p q : Principal) (gs : List String)
    → Includes p.groups q.groups
    → in_any_group p gs ≡ true
    → in_any_group q gs ≡ true
unfolding in_any_group
in_any_group_mono p q [] i h = h
in_any_group_mono p q (g ∷ gs) i h =
    ground (arith, h, in_group_mono p q g i, in_any_group_mono p q gs i)

-- Of two callers with the same subject and the same auditor header, one that is in all groups of
-- the other sees all that the other sees.
pub can_see_mono :
    (cfg : Config) (p q : Principal) (rt : ResourceType) (a : Annotations)
    → p.subject ≡ q.subject
    → p.auditor_header ≡ q.auditor_header
    → Includes p.groups q.groups
    → can_see cfg p rt a ≡ true
    → can_see cfg q rt a ≡ true
unfolding can_see grants is_auditor
can_see_mono cfg p q rt a s h i c = ground (
  arith,
  s,
  h,
  c,
  in_group_mono p q cfg.auditor_group i,
  in_any_group_mono p q (owner_groups a) i,
)

-- Whether a part is the name of the kind.
abbrev pub any_names : ResourceType → List String → Bool
any_names rt [] = false
any_names rt (part ∷ parts) = parse_resource_type part == rt || any_names rt parts

public_types_from_lem :
    (rt : ResourceType) (parts : List String) (types : Dict ResourceType Bool)
    → value_or (lookup rt (public_types_from parts types)) false ≡ (
        any_names rt parts && not (rt == unknown_resource_type) || value_or (lookup rt types) false)
unfolding public_types_from
public_types_from_lem rt [] types = refl
public_types_from_lem rt (part ∷ parts) types =
    let named : ResourceType = parse_resource_type part in
    ground (
      arith,
      public_types_from_lem rt parts types,
      public_types_from_lem rt parts (insert named true types),
      lookup-insert named rt true types,
      resource_type_eq.equals_iff named rt,
      resource_type_eq.equals_iff named unknown_resource_type,
      resource_type_eq.equals_iff rt unknown_resource_type,
    )

-- The public kinds are those that an item of the list names; the unknown kind, which stands for
-- every text that names no kind, is never public.
pub parse_public_resource_types_lem :
    (s : String) (rt : ResourceType)
    → value_or (lookup rt (parse_public_resource_types s)) false
      ≡ (any_names rt (parse_list s) && not (rt == unknown_resource_type))
unfolding parse_public_resource_types lookup
parse_public_resource_types_lem s rt = public_types_from_lem rt (parse_list s) [] ∙ ground arith
