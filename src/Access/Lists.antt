-- ===== src/Access/Lists.antt =====
-- access/repository.py: what the lists return. `collates` is the database's order of names.
use ats_onework.Prelude.{
  ℕ, String, Bool, true, false, List, ◌&&◌, ◌==◌, if◌then◌else◌, any, select, map,
}
use ats_onework.Schema.{Db, Permission, Role, Membership, MembershipRole, CatalogEntry}
use ats_onework.Access.Order.{order_by}
use ats_onework.Access.Repository.{names_of, grants_of, grants_to}
use ats_onework.Access.Members.{is_membership}

module _ (collates : String → String → Bool) where
  unfoldable pub list_permissions : ℕ → Db → List Permission
  list_permissions organization_id d =
      order_by (λ p q. collates p.api_name q.api_name)
        (select (λ p. p.organization_id == organization_id) d.permissions.rows)

  unfoldable pub list_roles : ℕ → Db → List Role
  list_roles organization_id d =
      order_by (λ r s. collates r.name s.name)
        (select (λ r. r.organization_id == organization_id) d.roles.rows)

  unfoldable pub list_role_grants : ℕ → ℕ → Db → List String
  list_role_grants organization_id role_id d = order_by collates (
      names_of d.permissions.rows (
        map (λ g. g.permission_id) (select (grants_of organization_id role_id) d.role_permissions)))

  unfoldable pub list_user_grants : ℕ → ℕ → Db → List String
  list_user_grants organization_id employee_id d = order_by collates (
      names_of d.permissions.rows (
        map (λ g. g.permission_id)
          (select (grants_to organization_id employee_id) d.user_permissions)))

  -- The joined keys are unique, so a role stands in the result once.
  unfoldable pub list_member_roles : ℕ → ℕ → Db → List Role
  list_member_roles organization_id employee_id d =
      order_by (λ r s. collates r.name s.name)
        (select
          (λ r.
            any
              (λ (mr : MembershipRole).
                mr.role_id == r.role_id
                && any (λ (m : Membership). m.membership_id == mr.membership_id)
                    (select (is_membership organization_id employee_id) d.memberships.rows))
              d.membership_roles)
          d.roles.rows)

  -- ORDER BY kind ASC, name ASC
  abbrev entry_before : CatalogEntry → CatalogEntry → Bool
  entry_before x y =
      if collates x.kind y.kind
      then if collates y.kind x.kind then collates x.name y.name else true
      else false

  unfoldable pub list_catalog : Db → List CatalogEntry
  list_catalog d = order_by entry_before d.access_catalog.rows
