-- ===== src/Access/Service.antt =====
-- access/service.py: the access model of one organization. `collates` is the database's order of
-- names.
use ats_onework.Prelude.{
  ℕ, String, Bool, true, false, Option, none, some, List, [], ◌∷◌, is_some, map,
}
use ats_onework.Exec.{Exec, Error, pure, gets, or_raise, raise_if, ◌>>=◌, ◌>>◌}
use ats_onework.Schema.{Db, Permission, Role, Membership, lit, num, text, number, names}
use ats_onework.Tenant.{get_membership, require_member, require_admin}
use ats_onework.Audit.{log}
use ats_onework.Permissions.{granted_permissions}
use ats_onework.Access.Order.{sorted_set}
use ats_onework.Access.Repository.{
  get_permission, create_permission, get_role, get_role_by_name, create_role, replace_role_grants,
  replace_user_grants,
}
use ats_onework.Access.Members.{replace_member_roles}
use ats_onework.Access.Lists.{
  list_permissions, list_roles, list_role_grants, list_user_grants, list_member_roles,
}

-- `_membership`
unfoldable pub membership_of : ℕ → ℕ → Exec Db Membership
membership_of employee_id organization_id = do
  row ← gets (λ d. get_membership employee_id organization_id d.memberships.rows)
  or_raise row Error.not_found

-- `_require_member`: a super administrator need not be a member.
unfoldable pub access_member : ℕ → ℕ → Bool → Exec Db (Unit {0})
access_member employee_id org_id true = pure tt
access_member employee_id org_id false = do require_member employee_id org_id; pure tt

-- `_require_admin`
unfoldable pub access_admin : ℕ → ℕ → Bool → Exec Db (Unit {0})
access_admin employee_id org_id true = pure tt
access_admin employee_id org_id false = do require_admin employee_id org_id; pure tt

pub record RoleResponse : Type 0 where
  pub role : Role
  pub permissions : List String

pub record MemberAccessResponse : Type 0 where
  pub employee_id : ℕ
  pub organization_id : ℕ
  pub is_admin : Bool
  pub roles : List String
  pub direct_permissions : List String
  pub effective_permissions : List String

unfoldable pub create_capability : ℕ → ℕ → String → Option String → Bool → Exec Db Permission
create_capability actor_id organization_id api_name description is_superuser = do
  access_admin actor_id organization_id is_superuser
  existing ← gets (get_permission organization_id api_name)
  raise_if (is_some existing) Error.conflict
  row ← create_permission organization_id api_name description
  log (some actor_id) (some organization_id) (lit "access.permission.create" ∷ []) "permissions"
      (num row.permission_id) none
      (some
        (("api_name", text (lit api_name ∷ [])) ∷ ("organization_id", number organization_id) ∷ []))
  pure row

module _ (collates : String → String → Bool) where
  unfoldable pub list_capabilities : ℕ → ℕ → Bool → Exec Db (List Permission)
  list_capabilities employee_id organization_id is_superuser = do
    access_member employee_id organization_id is_superuser
    gets (list_permissions collates organization_id)

  abbrev role_response : ℕ → Db → Role → RoleResponse
  role_response organization_id d role = record {
    role = role;
    permissions = list_role_grants collates organization_id role.role_id d;
  }

  unfoldable pub list_organization_roles : ℕ → ℕ → Bool → Exec Db (List RoleResponse)
  list_organization_roles employee_id organization_id is_superuser = do
    access_member employee_id organization_id is_superuser
    gets (λ d. map (role_response organization_id d) (list_roles collates organization_id d))

  unfoldable pub create_custom_role :
      ℕ → ℕ → String → Option String → List String → Bool → Exec Db RoleResponse
  create_custom_role actor_id organization_id name description permissions is_superuser = do
    access_admin actor_id organization_id is_superuser
    existing ← gets (get_role_by_name organization_id name)
    raise_if (is_some existing) Error.conflict
    row ← create_role organization_id name description
    replace_role_grants organization_id row.role_id permissions
    log (some actor_id) (some organization_id) (lit "access.role.create" ∷ []) "roles"
        (num row.role_id) none
        (some (
          ("name", text (lit name ∷ []))
          ∷ ("organization_id", number organization_id)
          ∷ ("permissions", names permissions)
          ∷ []))
    gets (λ d. role_response organization_id d row)

  unfoldable pub get_role_grants : ℕ → ℕ → ℕ → Bool → Exec Db (List String)
  get_role_grants employee_id organization_id role_id is_superuser = do
    access_member employee_id organization_id is_superuser
    role ← gets (get_role organization_id role_id)
    or_raise role Error.not_found
    gets (list_role_grants collates organization_id role_id)

  -- What `set_role_grants` does with a role of the organization.
  unfoldable pub replace_grants : ℕ → ℕ → ℕ → List String → Exec Db (List String)
  replace_grants actor_id organization_id role_id permissions = do
    old ← gets (list_role_grants collates organization_id role_id)
    replace_role_grants organization_id role_id permissions
    new ← gets (list_role_grants collates organization_id role_id)
    log (some actor_id) (some organization_id) (lit "access.role.grants.update" ∷ []) "roles"
        (num role_id) (some (("permissions", names old) ∷ []))
        (some (("permissions", names new) ∷ []))
    pure new

  unfoldable pub set_role_grants : ℕ → ℕ → ℕ → List String → Bool → Exec Db (List String)
  set_role_grants actor_id organization_id role_id permissions is_superuser = do
    access_admin actor_id organization_id is_superuser
    role ← gets (get_role organization_id role_id)
    or_raise role Error.not_found
    replace_grants actor_id organization_id role_id permissions

  abbrev pub member_access : ℕ → ℕ → Membership → Db → MemberAccessResponse
  member_access target_id organization_id membership d = record {
    employee_id = target_id;
    organization_id = organization_id;
    is_admin = membership.is_admin;
    roles = map (λ r. r.name) (list_member_roles collates organization_id target_id d);
    direct_permissions = list_user_grants collates organization_id target_id d;
    effective_permissions = sorted_set (granted_permissions target_id organization_id d);
  }

  unfoldable pub get_member_access : ℕ → ℕ → ℕ → Bool → Exec Db MemberAccessResponse
  get_member_access actor_id organization_id target_id is_superuser = do
    access_admin actor_id organization_id is_superuser
    membership ← membership_of target_id organization_id
    gets (member_access target_id organization_id membership)

  -- What `set_member_roles` does with a member.
  unfoldable pub replace_roles : ℕ → ℕ → ℕ → List ℕ → Exec Db (Unit {0})
  replace_roles actor_id organization_id target_id role_ids = do
    old ← gets (λ d. map (λ r. r.name) (list_member_roles collates organization_id target_id d))
    replace_member_roles organization_id target_id role_ids
    new ← gets (λ d. map (λ r. r.name) (list_member_roles collates organization_id target_id d))
    log (some actor_id) (some organization_id) (lit "access.member.roles.update" ∷ [])
        "membership_roles" (num target_id) (some (("roles", names old) ∷ []))
        (some (("roles", names new) ∷ []))

  unfoldable pub set_member_roles : ℕ → ℕ → ℕ → List ℕ → Bool → Exec Db MemberAccessResponse
  set_member_roles actor_id organization_id target_id role_ids is_superuser = do
    access_admin actor_id organization_id is_superuser
    membership_of target_id organization_id
    replace_roles actor_id organization_id target_id role_ids
    get_member_access actor_id organization_id target_id is_superuser

  -- What `set_member_permissions` does with a member.
  unfoldable pub replace_direct : ℕ → ℕ → ℕ → List String → Exec Db (Unit {0})
  replace_direct actor_id organization_id target_id permissions = do
    old ← gets (list_user_grants collates organization_id target_id)
    replace_user_grants organization_id target_id permissions
    new ← gets (list_user_grants collates organization_id target_id)
    log (some actor_id) (some organization_id) (lit "access.member.permissions.update" ∷ [])
        "user_permissions" (num target_id) (some (("permissions", names old) ∷ []))
        (some (("permissions", names new) ∷ []))

  unfoldable pub set_member_permissions :
      ℕ → ℕ → ℕ → List String → Bool → Exec Db MemberAccessResponse
  set_member_permissions actor_id organization_id target_id permissions is_superuser = do
    access_admin actor_id organization_id is_superuser
    membership_of target_id organization_id
    replace_direct actor_id organization_id target_id permissions
    get_member_access actor_id organization_id target_id is_superuser
