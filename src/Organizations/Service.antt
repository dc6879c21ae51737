-- ===== src/Organizations/Service.antt =====
-- organizations/service.py: the methods of `OrganizationService`.
use ats_onework.Prelude.{
  ℕ, String, Bool, true, Option, none, some, List, [], ◌∷◌, ◌&&◌, not, leb, is_some, if◌then◌else◌,
}
use ats_onework.Prelude.Text.{is_empty}
use ats_onework.Exec.{Exec, Error, pure, gets, or_raise, raise_if, ◌>>=◌, ◌>>◌}
use ats_onework.Schema.{Db, Organization, Membership, Role, lit, num, text, number, flag, names}
use ats_onework.Tenant.{get_membership, require_member, require_admin}
use ats_onework.Audit.{Values, log}
use ats_onework.Access.Repository.{get_role_by_name, create_role}
use ats_onework.Access.Members.{add_member_role}
use ats_onework.Access.Lists.{list_roles}
use ats_onework.Access.Catalog.{install_permissions, install_roles}
use ats_onework.Organizations.Slugs.{slugify}
use ats_onework.Organizations.Repository.{
  OrganizationUpdate, create_organization_row, get_organization_row, update_organization_row,
  list_organizations_for_employee, add_membership, remove_membership, count_admins, user_exists,
}

-- `payload.slug or slugify(payload.name)`
abbrev or_slug : Option String → String → String
or_slug none made = made
or_slug (some slug) made = if is_empty slug then made else slug

-- The creator holds the role `admin`, if the organization has it.
abbrev pub give_role : ℕ → ℕ → Option Role → Exec Db (Unit {0})
give_role organization_id membership_id none = pure tt
give_role organization_id membership_id (some role) =
    add_member_role organization_id membership_id role.role_id

-- `lower` is `str.lower`, and `collates` the database's order of names.
module _ (lower : String → String) (collates : String → String → Bool) where
  unfoldable pub create_organization :
      ℕ → String → Option String → Option String → Exec Db Organization
  create_organization actor_id name given_slug description = do
    let slug = or_slug given_slug (slugify lower name)
    raise_if (is_empty slug) Error.validation
    org ← create_organization_row name slug description
    install_permissions org.organization_id
    install_roles collates org.organization_id
    membership ← add_membership actor_id org.organization_id true
    role ← gets (get_role_by_name org.organization_id "admin")
    give_role org.organization_id membership.membership_id role
    log (some actor_id) (some org.organization_id) (lit "organization.create" ∷ []) "organizations"
        (num org.organization_id) none
        (some (("name", text (lit org.name ∷ [])) ∷ ("slug", text (lit org.slug ∷ [])) ∷ []))
    pure org

unfoldable pub list_own : ℕ → Exec Db (List Organization)
list_own employee_id = gets (list_organizations_for_employee employee_id)

unfoldable pub get_organization : ℕ → ℕ → Exec Db Organization
get_organization employee_id organization_id = do
  require_member employee_id organization_id
  org ← gets (get_organization_row organization_id)
  or_raise org Error.not_found

abbrev audited : Organization → Values
audited o =
    ("name", text (lit o.name ∷ []))
    ∷ ("slug", text (lit o.slug ∷ []))
    ∷ ("is_active", flag o.is_active)
    ∷ []

-- What `update_organization` does with the current row.
unfoldable pub apply_update : ℕ → ℕ → OrganizationUpdate → Organization → Exec Db Organization
apply_update employee_id organization_id payload current = do
  found ← update_organization_row organization_id payload
  row ← or_raise found Error.not_found
  log (some employee_id) (some organization_id) (lit "organization.update" ∷ []) "organizations"
      (num organization_id) (some (audited current)) (some (audited row))
  pure row

-- A body that names no column writes nothing.
unfoldable pub update_or_keep : ℕ → ℕ → OrganizationUpdate → Organization → Exec Db Organization
update_or_keep employee_id organization_id payload current =
    if payload.is_set
    then apply_update employee_id organization_id payload current
    else pure current

unfoldable pub update_organization : ℕ → ℕ → OrganizationUpdate → Exec Db Organization
update_organization employee_id organization_id payload = do
  require_admin employee_id organization_id
  found ← gets (get_organization_row organization_id)
  current ← or_raise found Error.not_found
  update_or_keep employee_id organization_id payload current

-- The loop of `_assign_default_roles`.
unfoldable pub assign_each : ℕ → ℕ → List String → Exec Db (Unit {0})
assign_each organization_id membership_id [] = pure tt
assign_each organization_id membership_id (name ∷ rest) = do
  found ← gets (get_role_by_name organization_id name)
  role ← or_raise found Error.not_found
  add_member_role organization_id membership_id role.role_id
  assign_each organization_id membership_id rest

abbrev default_names : Bool → List String → List String
default_names is_admin [] = (if is_admin then "admin" else "employee") ∷ []
default_names is_admin (name ∷ rest) = name ∷ rest

-- `_assign_default_roles`
unfoldable pub assign_default_roles : ℕ → ℕ → Bool → List String → Exec Db (Unit {0})
assign_default_roles organization_id membership_id is_admin requested =
    assign_each organization_id membership_id (default_names is_admin requested)

-- What `add_member` does for a user who is there.
unfoldable pub add_new_member : ℕ → ℕ → ℕ → Bool → List String → Exec Db Membership
add_new_member actor_id organization_id employee_id is_admin roles = do
  member ← gets (λ d. get_membership employee_id organization_id d.memberships.rows)
  raise_if (is_some member) Error.conflict
  row ← add_membership employee_id organization_id is_admin
  assign_default_roles organization_id row.membership_id is_admin roles
  log (some actor_id) (some organization_id) (lit "organization.member.add" ∷ []) "memberships"
      (num row.membership_id) none
      (some (
        ("employee_id", number employee_id)
        ∷ ("organization_id", number organization_id)
        ∷ ("is_admin", flag is_admin)
        ∷ ("roles", names roles)
        ∷ []))
  pure row

unfoldable pub add_member : ℕ → ℕ → ℕ → Bool → List String → Exec Db Membership
add_member actor_id organization_id employee_id is_admin roles = do
  require_admin actor_id organization_id
  exists ← gets (user_exists employee_id)
  raise_if (not exists) Error.not_found
  add_new_member actor_id organization_id employee_id is_admin roles

-- What `remove_member` does with the membership, the administrators being locked and counted.
unfoldable pub remove_target : ℕ → ℕ → ℕ → Membership → ℕ → Exec Db (Unit {0})
remove_target actor_id organization_id employee_id target admins = do
  raise_if (target.is_admin && leb admins 1) Error.conflict
  remove_membership employee_id organization_id
  log (some actor_id) (some organization_id) (lit "organization.member.remove" ∷ []) "memberships"
      (num target.membership_id)
      (some
        (("employee_id", number employee_id) ∷ ("organization_id", number organization_id) ∷ []))
      none

unfoldable pub remove_member : ℕ → ℕ → ℕ → Exec Db (Unit {0})
remove_member actor_id organization_id employee_id = do
  require_admin actor_id organization_id
  found ← gets (λ d. get_membership employee_id organization_id d.memberships.rows)
  target ← or_raise found Error.not_found
  admins ← gets (count_admins organization_id)
  remove_target actor_id organization_id employee_id target admins

unfoldable pub list_organization_role_rows : (String → String → Bool) → ℕ → ℕ → Exec Db (List Role)
list_organization_role_rows collates employee_id organization_id = do
  require_member employee_id organization_id
  gets (list_roles collates organization_id)

unfoldable pub create_organization_role : ℕ → ℕ → String → Option String → Exec Db Role
create_organization_role actor_id organization_id name description = do
  require_admin actor_id organization_id
  row ← create_role organization_id name description
  log (some actor_id) (some organization_id) (lit "organization.role.create" ∷ []) "roles"
      (num row.role_id) none
      (some (("name", text (lit name ∷ [])) ∷ ("organization_id", number organization_id) ∷ []))
  pure row
