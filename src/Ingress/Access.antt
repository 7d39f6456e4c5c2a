-- ===== src/Ingress/Access.antt =====
-- pkg/ingress/apply_iam.go: permissions, roles and bindings, which embed what the model has of the
-- resources that they refer to.
use modelsrv.Prelude.{String, Bool, true, false, Option, none, some, [], ◌∷◌, map}
use modelsrv.Event.{Uuid}
use modelsrv.Model.State.{ModelData, Objects}
use modelsrv.Model.Landscape.{get_context_by_id}
use modelsrv.Model.Access.{
  add_permission_spec, get_permission_spec_by_id, add_role_spec, add_permission,
  get_permission_by_id, add_role, get_role_by_id, add_binding, get_group_by_id, get_identity_by_id,
}
use modelsrv.Ingress.Values.{
  Value, object, Fields, Outcome, done, failed, ◌>>=◌, missing, not_map, both_subjects, no_subject,
  Parsers, present, string_field, not_blank, parse_uuid_field, first_uuid_field,
}
use modelsrv.Ingress.Lists.{parse_resource_refs, parse_uuid_string_list, valid_uuid}
use modelsrv.Ingress.Resources.{
  Resource, Ref, Subject, group_subject, identity_subject, permission_spec, role_spec, permission,
  role, binding,
}
use modelsrv.Ingress.Making.{added, described}

-- A reference, with what the getter found.
abbrev reference : (Uuid → Option Resource) → Uuid → Ref
reference get id = record { id = id; embedded = found (get id) }
  where
    found : Option Resource → Bool
    found none = false
    found (some r) = true

abbrev subject_embedded : ModelData Resource → Subject → Subject
subject_embedded m (group_subject ref) = group_subject (reference (get_group_by_id m) ref.id)
subject_embedded m (identity_subject ref) =
    identity_subject (reference (get_identity_by_id m) ref.id)

module _ (p : Parsers) where
  abbrev uuid_given : String → Option String → Outcome (Option Uuid)
  uuid_given key none = done none
  uuid_given key (some s) = valid_uuid p key (p.parse_uuid s) >>= λ id. done (some id)

  -- `optionalUUIDRefFromMap`
  unfoldable pub optional_uuid_ref_from_map : Fields → String → Outcome (Option Uuid)
  optional_uuid_ref_from_map subm key = uuid_given key (not_blank p (string_field p subm key))

  abbrev one_subject : Option Uuid → Option Uuid → Outcome Subject
  one_subject (some g) (some i) = failed both_subjects
  one_subject (some g) none = done (group_subject (record { id = g; embedded = false }))
  one_subject none (some i) = done (identity_subject (record { id = i; embedded = false }))
  one_subject none none = failed no_subject

  abbrev subject_in : Option Value → Outcome Subject
  subject_in none = failed (missing "subject")
  subject_in (some (object subm)) = do
    g ← optional_uuid_ref_from_map subm "groupId"
    i ← optional_uuid_ref_from_map subm "identityId"
    one_subject g i
  subject_in (some v) = failed (not_map "subject")

  -- `parseBindingSubject`
  unfoldable pub parse_binding_subject : Fields → Outcome Subject
  parse_binding_subject spec = subject_in (present "subject" spec)

module _ (p : Parsers) (ob : Objects Resource) where
  -- `applyPermissionSpec`
  unfoldable pub apply_permission_spec : ModelData Resource → Fields → Outcome (ModelData Resource)
  apply_permission_spec m spec = do
    x ← described p (parse_uuid_field p spec "permissionSpecId") spec (done permission_spec)
    added (add_permission_spec ob m x)

  -- `applyRoleSpec`
  unfoldable pub apply_role_spec : ModelData Resource → Fields → Outcome (ModelData Resource)
  apply_role_spec m spec = do
    x ← described p (parse_uuid_field p spec "roleSpecId") spec (do
      ids ← parse_uuid_string_list p spec "permissions"
      done (role_spec (map (reference (get_permission_spec_by_id m)) ids)))
    added (add_role_spec ob m x)

  -- `applyPermission`
  unfoldable pub apply_permission : ModelData Resource → Fields → Outcome (ModelData Resource)
  apply_permission m spec = do
    x ←
        described p (parse_uuid_field p spec "permissionId") spec
          (do sid ← parse_uuid_field p spec "spec"; done (permission sid))
    added (add_permission ob m x)

  -- `applyRole`
  unfoldable pub apply_role : ModelData Resource → Fields → Outcome (ModelData Resource)
  apply_role m spec = do
    x ← described p (parse_uuid_field p spec "roleId") spec (do
      rsid ← first_uuid_field p spec ("spec" ∷ "roleSpecId" ∷ [])
      cid ← first_uuid_field p spec ("context" ∷ "contextId" ∷ [])
      ids ← parse_uuid_string_list p spec "permissions"
      refs ← parse_resource_refs p spec
      done (
          role rsid (reference (get_context_by_id m) cid)
            (map (reference (get_permission_by_id m)) ids) refs))
    added (add_role ob m x)

  -- `applyBinding`
  unfoldable pub apply_binding : ModelData Resource → Fields → Outcome (ModelData Resource)
  apply_binding m spec = do
    x ← described p (parse_uuid_field p spec "bindingId") spec (do
      rid ← first_uuid_field p spec ("role" ∷ "roleId" ∷ [])
      subject ← parse_binding_subject p spec
      done (binding (reference (get_role_by_id m) rid) (subject_embedded m subject)))
    added (add_binding ob m x)
