-- ===== src/Event/Kind.antt =====
-- pkg/events/events.go: the kinds of resource (`ResourceType`), in the order of their Go constants.
use modelsrv.Prelude.{
  ℕ, ◌≡◌, refl, sym, ap, ◌∙◌, ◌↔◌, Bool, true, List, [], ◌∷◌, get_or, nat_beq, nat_beq_iff,
  Comparable,
}

pub data ResourceType : Type 0 where
  unknown_resource_type node_resource node_type_resource context_resource context_type_resource :
      ResourceType
  system_resource system_instance_resource api_resource api_instance_resource component_resource :
      ResourceType
  component_instance_resource org_unit_resource group_resource identity_resource : ResourceType
  permission_spec_resource role_spec_resource permission_resource role_resource binding_resource :
      ResourceType
  product_resource finding_resource finding_type_resource artifact_resource : ResourceType
  artifact_instance_resource filter_rule_resource merge_rule_resource capability_resource :
      ResourceType
  parameter_resource capacity_resource_type_resource capacity_resource annotations_resource :
      ResourceType

-- All kinds, each at the index that is its Go value.
abbrev pub resource_types : List ResourceType
resource_types =
    unknown_resource_type ∷ node_resource ∷ node_type_resource ∷ context_resource
    ∷ context_type_resource ∷ system_resource ∷ system_instance_resource ∷ api_resource
    ∷ api_instance_resource ∷ component_resource ∷ component_instance_resource ∷ org_unit_resource
    ∷ group_resource ∷ identity_resource ∷ permission_spec_resource ∷ role_spec_resource
    ∷ permission_resource ∷ role_resource ∷ binding_resource ∷ product_resource ∷ finding_resource
    ∷ finding_type_resource ∷ artifact_resource ∷ artifact_instance_resource ∷ filter_rule_resource
    ∷ merge_rule_resource ∷ capability_resource ∷ parameter_resource
    ∷ capacity_resource_type_resource ∷ capacity_resource ∷ annotations_resource ∷ []

-- The Go value, `iota`.
unfoldable pub code : ResourceType → ℕ
code unknown_resource_type = 0
code node_resource = 1
code node_type_resource = 2
code context_resource = 3
code context_type_resource = 4
code system_resource = 5
code system_instance_resource = 6
code api_resource = 7
code api_instance_resource = 8
code component_resource = 9
code component_instance_resource = 10
code org_unit_resource = 11
code group_resource = 12
code identity_resource = 13
code permission_spec_resource = 14
code role_spec_resource = 15
code permission_resource = 16
code role_resource = 17
code binding_resource = 18
code product_resource = 19
code finding_resource = 20
code finding_type_resource = 21
code artifact_resource = 22
code artifact_instance_resource = 23
code filter_rule_resource = 24
code merge_rule_resource = 25
code capability_resource = 26
code parameter_resource = 27
code capacity_resource_type_resource = 28
code capacity_resource = 29
code annotations_resource = 30

get_or-code : (t : ResourceType) → get_or resource_types (code t) unknown_resource_type ≡ t
unfolding code
get_or-code unknown_resource_type = refl
get_or-code _ = refl

code-injective : (t u : ResourceType) → code t ≡ code u → t ≡ u
code-injective t u e =
    sym (get_or-code t)
    ∙ (ap (λ n. get_or resource_types n unknown_resource_type) e ∙ get_or-code u)

-- `t == u`
unfoldable pub resource_type_beq : ResourceType → ResourceType → Bool
unfolding code
resource_type_beq t u = nat_beq (code t) (code u)

pub resource_type_beq_iff : (t u : ResourceType) → (resource_type_beq t u ≡ true) ↔ (t ≡ u)
unfolding resource_type_beq
resource_type_beq_iff t u = (
  λ h. code-injective t u ((nat_beq_iff (code t) (code u)).0 h),
  λ e. (nat_beq_iff (code t) (code u)).1 (ap code e),
)

instance abbrev pub resource_type_eq : Comparable ResourceType
resource_type_eq = record { equals = resource_type_beq; equals_iff = resource_type_beq_iff }
