-- ===== src/Model/Access.antt =====
-- pkg/model/structure.go and structure_capacity.go: the methods for the organizational units,
-- groups, identities, permissions, roles and bindings. Where the source writes a generic
-- helper's body out again, the method calls the helper here.
use modelsrv.Prelude.{Option, List}
use modelsrv.Event.{Uuid}
use modelsrv.Event.Kind.{
  org_unit_resource, group_resource, identity_resource, permission_spec_resource,
  role_spec_resource, permission_resource, role_resource, binding_resource,
}
use modelsrv.Model.Stores.{
  org_units_by_uuid, groups_by_uuid, identities_by_uuid, permission_specs_by_uuid,
  role_specs_by_uuid, permissions_by_uuid, roles_by_uuid, bindings_by_uuid,
}
use modelsrv.Model.State.{
  ModelData, Objects, Result, not_found, add_event_enabled, delete_event_enabled, get_event_enabled,
  get_all_event_enabled,
}

module _ {O : Type 0} where
  -- `AddOrgUnit`
  unfoldable pub add_org_unit : Objects O → ModelData O → O → Result (ModelData O)
  add_org_unit ob m obj = add_event_enabled ob m obj org_units_by_uuid org_unit_resource

  -- `DeleteOrgUnit`
  unfoldable pub delete_org_unit : ModelData O → Uuid → Result (ModelData O)
  delete_org_unit m id =
      delete_event_enabled m id org_units_by_uuid org_unit_resource (not_found org_units_by_uuid)

  -- `GetOrgUnitById`
  unfoldable pub get_org_unit_by_id : ModelData O → Uuid → Option O
  get_org_unit_by_id m id = get_event_enabled m id org_units_by_uuid

  -- `GetOrgUnits`
  unfoldable pub get_org_units : ModelData O → List O
  get_org_units m = get_all_event_enabled m org_units_by_uuid

  -- `AddGroup`
  unfoldable pub add_group : Objects O → ModelData O → O → Result (ModelData O)
  add_group ob m obj = add_event_enabled ob m obj groups_by_uuid group_resource

  -- `DeleteGroup`
  unfoldable pub delete_group : ModelData O → Uuid → Result (ModelData O)
  delete_group m id =
      delete_event_enabled m id groups_by_uuid group_resource (not_found groups_by_uuid)

  -- `GetGroupById`
  unfoldable pub get_group_by_id : ModelData O → Uuid → Option O
  get_group_by_id m id = get_event_enabled m id groups_by_uuid

  -- `GetGroups`
  unfoldable pub get_groups : ModelData O → List O
  get_groups m = get_all_event_enabled m groups_by_uuid

  -- `AddIdentity`
  unfoldable pub add_identity : Objects O → ModelData O → O → Result (ModelData O)
  add_identity ob m obj = add_event_enabled ob m obj identities_by_uuid identity_resource

  -- `DeleteIdentity`
  unfoldable pub delete_identity : ModelData O → Uuid → Result (ModelData O)
  delete_identity m id =
      delete_event_enabled m id identities_by_uuid identity_resource (not_found identities_by_uuid)

  -- `GetIdentities`
  unfoldable pub get_identities : ModelData O → List O
  get_identities m = get_all_event_enabled m identities_by_uuid

  -- `GetIdentityById`
  unfoldable pub get_identity_by_id : ModelData O → Uuid → Option O
  get_identity_by_id m id = get_event_enabled m id identities_by_uuid

  -- `AddPermissionSpec`
  unfoldable pub add_permission_spec : Objects O → ModelData O → O → Result (ModelData O)
  add_permission_spec ob m obj =
      add_event_enabled ob m obj permission_specs_by_uuid permission_spec_resource

  -- `DeletePermissionSpec`
  unfoldable pub delete_permission_spec : ModelData O → Uuid → Result (ModelData O)
  delete_permission_spec m id =
      delete_event_enabled m id permission_specs_by_uuid permission_spec_resource
        (not_found permission_specs_by_uuid)

  -- `GetPermissionSpecs`
  unfoldable pub get_permission_specs : ModelData O → List O
  get_permission_specs m = get_all_event_enabled m permission_specs_by_uuid

  -- `GetPermissionSpecById`
  unfoldable pub get_permission_spec_by_id : ModelData O → Uuid → Option O
  get_permission_spec_by_id m id = get_event_enabled m id permission_specs_by_uuid

  -- `AddRoleSpec`
  unfoldable pub add_role_spec : Objects O → ModelData O → O → Result (ModelData O)
  add_role_spec ob m obj = add_event_enabled ob m obj role_specs_by_uuid role_spec_resource

  -- `DeleteRoleSpec`
  unfoldable pub delete_role_spec : ModelData O → Uuid → Result (ModelData O)
  delete_role_spec m id =
      delete_event_enabled m id role_specs_by_uuid role_spec_resource (not_found role_specs_by_uuid)

  -- `GetRoleSpecs`
  unfoldable pub get_role_specs : ModelData O → List O
  get_role_specs m = get_all_event_enabled m role_specs_by_uuid

  -- `GetRoleSpecById`
  unfoldable pub get_role_spec_by_id : ModelData O → Uuid → Option O
  get_role_spec_by_id m id = get_event_enabled m id role_specs_by_uuid

  -- `AddPermission`
  unfoldable pub add_permission : Objects O → ModelData O → O → Result (ModelData O)
  add_permission ob m obj = add_event_enabled ob m obj permissions_by_uuid permission_resource

  -- `DeletePermission`
  unfoldable pub delete_permission : ModelData O → Uuid → Result (ModelData O)
  delete_permission m id =
      delete_event_enabled m id permissions_by_uuid permission_resource
        (not_found permissions_by_uuid)

  -- `GetPermissions`
  unfoldable pub get_permissions : ModelData O → List O
  get_permissions m = get_all_event_enabled m permissions_by_uuid

  -- `GetPermissionById`
  unfoldable pub get_permission_by_id : ModelData O → Uuid → Option O
  get_permission_by_id m id = get_event_enabled m id permissions_by_uuid

  -- `AddRole`
  unfoldable pub add_role : Objects O → ModelData O → O → Result (ModelData O)
  add_role ob m obj = add_event_enabled ob m obj roles_by_uuid role_resource

  -- `DeleteRole`
  unfoldable pub delete_role : ModelData O → Uuid → Result (ModelData O)
  delete_role m id = delete_event_enabled m id roles_by_uuid role_resource (not_found roles_by_uuid)

  -- `GetRoles`
  unfoldable pub get_roles : ModelData O → List O
  get_roles m = get_all_event_enabled m roles_by_uuid

  -- `GetRoleById`
  unfoldable pub get_role_by_id : ModelData O → Uuid → Option O
  get_role_by_id m id = get_event_enabled m id roles_by_uuid

  -- `AddBinding`
  unfoldable pub add_binding : Objects O → ModelData O → O → Result (ModelData O)
  add_binding ob m obj = add_event_enabled ob m obj bindings_by_uuid binding_resource

  -- `DeleteBinding`
  unfoldable pub delete_binding : ModelData O → Uuid → Result (ModelData O)
  delete_binding m id =
      delete_event_enabled m id bindings_by_uuid binding_resource (not_found bindings_by_uuid)

  -- `GetBindings`
  unfoldable pub get_bindings : ModelData O → List O
  get_bindings m = get_all_event_enabled m bindings_by_uuid

  -- `GetBindingById`
  unfoldable pub get_binding_by_id : ModelData O → Uuid → Option O
  get_binding_by_id m id = get_event_enabled m id bindings_by_uuid
