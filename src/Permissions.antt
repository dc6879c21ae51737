-- ===== src/Permissions.antt =====
-- common/permissions.py: the capabilities that a person holds in an organization.
pub mod Holds
use ats_onework.Prelude.{
  ℕ, String, Bool, List, map, ◌&&◌, ◌||◌, ◌==◌, not, any, select, find, is_some, is_value,
}
use ats_onework.Prelude.Text.{text_eq}
use ats_onework.Exec.{Exec, Error, gets, ◌>>=◌, ◌>>◌, raise_if}
use ats_onework.Schema.{Db, Membership, MembershipRole, RolePermission, UserPermission}

-- membership -> membership_roles -> role_permissions
unfoldable pub granted_by_role : ℕ → ℕ → ℕ → Db → Bool
granted_by_role employee_id organization_id permission_id d =
    any
      (λ (m : Membership).
        (m.employee_id == employee_id && m.organization_id == organization_id)
        && any
            (λ (mr : MembershipRole).
              mr.membership_id == m.membership_id
              && any
                  (λ (rp : RolePermission).
                    rp.role_id == mr.role_id && rp.permission_id == permission_id)
                  d.role_permissions)
            d.membership_roles)
      d.memberships.rows

-- user_permissions
unfoldable pub granted_directly : ℕ → ℕ → ℕ → Db → Bool
granted_directly employee_id organization_id permission_id d =
    any
      (λ (up : UserPermission).
        (up.employee_id == employee_id && is_value up.organization_id organization_id)
        && up.permission_id == permission_id)
      d.user_permissions

-- `granted_permissions`: the rows of `_GRANTED_SQL`
unfoldable pub granted_permissions : ℕ → ℕ → Db → List String
unfolding granted_by_role granted_directly
granted_permissions employee_id organization_id d =
    map (λ p. p.api_name)
      (select
        (λ p.
          p.organization_id == organization_id
          && (granted_by_role employee_id organization_id p.permission_id d
              || granted_directly employee_id organization_id p.permission_id d))
        d.permissions.rows)

unfoldable pub has_permission : ℕ → ℕ → String → Db → Bool
unfolding granted_permissions
has_permission employee_id organization_id api_name d =
    any (text_eq api_name) (granted_permissions employee_id organization_id d)

unfoldable pub require_capability : ℕ → ℕ → String → Exec Db (Unit {0})
unfolding has_permission
require_capability employee_id organization_id api_name = do
  granted ← gets (has_permission employee_id organization_id api_name)
  raise_if (not granted) Error.authorization

-- `require_path_membership`
unfoldable pub require_path_membership : ℕ → ℕ → Bool → Exec Db (Unit {0})
require_path_membership employee_id organization_id is_superuser = do
  row ← gets (λ d.
      find (λ m. m.employee_id == employee_id && m.organization_id == organization_id)
        d.memberships.rows)
  raise_if (not is_superuser && not (is_some row)) Error.not_found

-- `RequireAnyPathPermission`, and with a single name `RequirePathPermission`
unfoldable pub require_any_path_permission : ℕ → ℕ → Bool → List String → Exec Db (Unit {0})
unfolding require_path_membership has_permission
require_any_path_permission employee_id organization_id is_superuser api_names = do
  require_path_membership employee_id organization_id is_superuser
  granted ← gets (λ d. any (λ n. has_permission employee_id organization_id n d) api_names)
  raise_if (not granted) Error.authorization
