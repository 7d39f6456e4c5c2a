-- ===== src/Phase0/Checked.antt =====
-- What is demanded of the findings of the filter, and how its checks come by it.
use modelsrv.Prelude.{
  ◌≡◌, refl, ◌∙◌, Bool, true, false, not, Option, none, some, ◌==◌, nat_eq, string_eq,
  if◌then◌else◌, arith, Bool-cases, ◌⊎◌, inl, inr, ap,
}
use modelsrv.Prelude.Dict.{lookup}
use modelsrv.Event.{Uuid, nil}
use modelsrv.Model.Stores.{
  contexts_by_uuid, context_types_by_uuid, nodes_by_uuid, node_types_by_uuid,
}
use modelsrv.Model.State.{ModelData, get_event_enabled}
use modelsrv.Model.Landscape.{get_context_by_id, get_context_type_by_id, get_node_type_by_id}
use modelsrv.Phase0.{
  Checks, is_there, is_embedded, context_type_check_passes, context_parent_check_passes,
  node_type_check_passes,
}
use modelsrv.Phase0.Settles.{
  Check, type_check, parent_check, node_check, kind_for, IsFrame, IsFrame-trans, has_finding,
  Settles, IsNamespace,
}

module _ {O : Type 0} (k : Checks O) where
  abbrev pub verdict : (O → Bool) → Option O → Option Bool
  verdict passes none = none
  verdict passes (some x) = some (not (passes x))

  -- What is demanded is demanded of a stored resource.
  pub verdict-subject :
      (passes : O → Bool) (found : Option O) (b : Bool)
      → verdict passes found ≡ some b
      → (x : O) × (found ≡ some x)
  verdict-subject passes none b e = absurd (cc)
  verdict-subject passes (some x) b e = (x, refl)

  -- Whether the subject of the check is to have a finding; `none` if it is not in the model.
  abbrev pub demanded : ModelData O → Check → Uuid → Option Bool
  demanded m type_check id =
      verdict (context_type_check_passes k m) (lookup id (m.stores contexts_by_uuid))
  demanded m parent_check id =
      verdict (context_parent_check_passes k m) (lookup id (m.stores contexts_by_uuid))
  demanded m node_check id =
      verdict (node_type_check_passes k m) (lookup id (m.stores nodes_by_uuid))

  -- The finding of each context and node is there exactly if its check fails.
  abbrev pub Agrees : ModelData O → Type 0
  Agrees m =
      (check : Check) (id : Uuid) (b : Bool)
      → demanded m check id ≡ some b
      → has_finding m (k.finding_id id (kind_for check)) ≡ b

  -- The findings that are demanded or not become right, or stay.
  abbrev pub Reconciles : ModelData O → ModelData O → Type 0
  Reconciles m u =
      IsFrame m u
      × ((check : Check) (id : Uuid) (b : Bool)
          → demanded m check id ≡ some b
          → (has_finding u (k.finding_id id (kind_for check)) ≡ b)
            ⊎ (has_finding u (k.finding_id id (kind_for check))
                ≡ has_finding m (k.finding_id id (kind_for check))))

  pub demanded_frame :
      (m u : ModelData O) (check : Check) (id : Uuid)
      → IsFrame m u
      → demanded u check id ≡ demanded m check id
  unfolding context_type_check_passes context_parent_check_passes node_type_check_passes
      get_context_by_id get_context_type_by_id get_node_type_by_id get_event_enabled
  demanded_frame m u type_check id f = rw (f contexts_by_uuid (λ e. cc) (λ e. cc)) (
      ap
        (λ d.
          verdict
            (λ c.
              if k.get_context_type_id c == nil
              then false
              else is_there (lookup (k.get_context_type_id c) d))
            (lookup id (m.stores contexts_by_uuid)))
        (f context_types_by_uuid (λ e. cc) (λ e. cc)))
  demanded_frame m u parent_check id f =
      ap
        (λ d.
          verdict
            (λ c.
              if k.get_parent_id c == nil then true else is_there (lookup (k.get_parent_id c) d))
            (lookup id d))
        (f contexts_by_uuid (λ e. cc) (λ e. cc))
  demanded_frame m u node_check id f = rw (f nodes_by_uuid (λ e. cc) (λ e. cc)) (
      ap
        (λ d.
          verdict
            (λ n.
              if k.get_node_type_id n == nil
              then is_there (k.get_node_type n)
              else if is_there (lookup (k.get_node_type_id n) d)
              then true
              else is_embedded (k.get_node_type n) (k.get_node_type_id n))
            (lookup id (m.stores nodes_by_uuid)))
        (f node_types_by_uuid (λ e. cc) (λ e. cc)))

  pub Reconciles-refl : (m : ModelData O) → Reconciles m m
  Reconciles-refl m = (λ s n t. refl, λ check id b d. inr refl)

  pub Reconciles-trans : (m u w : ModelData O) → Reconciles m u → Reconciles u w → Reconciles m w
  Reconciles-trans m u w (f, r) (g, q) = (
    IsFrame-trans m u w f g,
    λ check id b d. elim (q check id b (demanded_frame m u check id f ∙ d)) [
      | inl e ↦ inl e
      | inr e ↦ elim (r check id b d) [ inl h ↦ inl (e ∙ h) | inr h ↦ inr (e ∙ h) ]
    ],
  )

  -- What is right stays right.
  pub Reconciles-keeps :
      (m u : ModelData O) (check : Check) (id : Uuid) (b : Bool)
      → Reconciles m u
      → demanded m check id ≡ some b
      → has_finding m (k.finding_id id (kind_for check)) ≡ b
      → has_finding u (k.finding_id id (kind_for check)) ≡ b
  Reconciles-keeps m u check id b (f, r) d h = elim (r check id b d) [ inl e ↦ e | inr e ↦ e ∙ h ]

  -- A check that settles what is demanded reconciles, whatever else is demanded.
  pub Settles-Reconciles :
      (m u : ModelData O) (check : Check) (id : Uuid) (b : Bool)
      → IsNamespace k
      → demanded m check id ≡ some b
      → Settles m u (k.finding_id id (kind_for check)) b
      → Reconciles m u
  Settles-Reconciles m u check id b v d (f, h) = (
    f,
    λ that other c e.
        let fid : Uuid = k.finding_id id (kind_for check) in
        let target : Uuid = k.finding_id other (kind_for that) in
        elim (Bool-cases (fid == target)) [
          | inr n ↦ inr (h target ∙ rw n refl)
          | inl p ↦
              let (same_id, same_check) =
                v.distinct id other check that ((nat_eq.equals_iff fid target).0 p) in
              let bc : b ≡ c =
                ground (
                  arith,
                  d,
                  e,
                  ap (λ t. demanded m t id) same_check,
                  ap (demanded m that) same_id,
                ) in
              inl (h target ∙ (rw p refl ∙ bc))
        ],
  )

  -- It reconciles the model, and the finding for the subject is there or not, as it should be.
  abbrev pub Mends : ModelData O → ModelData O → Check → Uuid → Type 0
  Mends m u check id =
      Reconciles m u
      × ((b : Bool)
          → demanded m check id ≡ some b
          → has_finding u (k.finding_id id (kind_for check)) ≡ b)

  pub Settles-Mends :
      (m u : ModelData O) (check : Check) (id : Uuid) (b : Bool)
      → IsNamespace k
      → demanded m check id ≡ some b
      → Settles m u (k.finding_id id (kind_for check)) b
      → Mends m u check id
  Settles-Mends m u check id b v d h = (
    Settles-Reconciles m u check id b v d h,
    λ c e.
        let fid : Uuid = k.finding_id id (kind_for check) in
        h.1 fid ∙ ground (arith, d, e, nat_eq.equals_iff fid fid),
  )
