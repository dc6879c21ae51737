-- ===== src/Organizations/Repository.antt =====
-- organizations/repository.py over the tables.
use ats_onework.Prelude.{
  ℕ, String, Bool, true, false, Option, none, some, List, ◌&&◌, ◌||◌, ◌==◌, leb, not, if◌then◌else◌,
  any, find, select, update, delete, is_some, count,
}
use ats_onework.Prelude.Text.{text_eq}
use ats_onework.Exec.{Exec, Error, ok, err}
use ats_onework.Schema.{Db, Organization, Membership, MembershipRole, insert_row, set_rows}
use ats_onework.Access.Order.{order_by}
use ats_onework.Access.Members.{is_membership}

abbrev pub has_slug : String → Organization → Bool
has_slug slug o = text_eq o.slug slug

abbrev pub new_organization : String → String → Option String → ℕ → Organization
new_organization name slug description id = record {
  organization_id = id;
  name = name;
  slug = slug;
  description = description;
  is_system = false;
  is_active = true;
}

-- `slug ... UNIQUE`
unfoldable pub create_organization_row : String → String → Option String → Exec Db Organization
create_organization_row name slug description d =
    if is_some (find (has_slug slug) d.organizations.rows) then (err Error.conflict, d) else (
      ok (new_organization name slug description d.organizations.next_id),
      record d {
        organizations = insert_row (new_organization name slug description) d.organizations;
      },
    )

unfoldable pub get_organization_row : ℕ → Db → Option Organization
get_organization_row organization_id d =
    find (λ o. o.organization_id == organization_id) d.organizations.rows

abbrev organizations_by_id : Organization → Organization → Bool
organizations_by_id o p = leb o.organization_id p.organization_id

-- UNIQUE (employee_id, organization_id): an organization is joined with one membership at most.
unfoldable pub list_organizations_for_employee : ℕ → Db → List Organization
list_organizations_for_employee employee_id d = order_by organizations_by_id (
    select
      (λ o.
        any (λ (m : Membership). is_membership o.organization_id employee_id m) d.memberships.rows)
      d.organizations.rows)

-- A column that is not given keeps its value.
abbrev pub keep_or {ℓ} : {A : Type ℓ} → Option A → A → A
keep_or none old = old
keep_or (some new) old = new

abbrev pub keep_text : Option String → Option String → Option String
keep_text none old = old
keep_text (some new) old = some new

-- The body of a PATCH: `is_set` says that it names a column, and `none` stands for a column that it
-- leaves out or sets to null.
pub record OrganizationUpdate : Type 0 where
  pub is_set : Bool
  pub name : Option String
  pub slug : Option String
  pub description : Option String
  pub is_active : Option Bool

abbrev pub patched : OrganizationUpdate → Organization → Organization
patched payload o = record o {
  name = keep_or payload.name o.name;
  slug = keep_or payload.slug o.slug;
  description = keep_text payload.description o.description;
  is_active = keep_or payload.is_active o.is_active;
}

abbrev pub sets_column : OrganizationUpdate → Bool
sets_column payload =
    is_some payload.name
    || is_some payload.slug
    || is_some payload.description
    || is_some payload.is_active

-- Whether another organization has the slug that an UPDATE would set.
abbrev slug_taken : ℕ → Option String → List Organization → Bool
slug_taken organization_id none rows = false
slug_taken organization_id (some slug) rows =
    any (λ (o : Organization). has_slug slug o && not (o.organization_id == organization_id)) rows

-- With no column to set, the row is only read.
unfoldable pub update_organization_row : ℕ → OrganizationUpdate → Exec Db (Option Organization)
update_organization_row organization_id payload d =
    let rows =
      update (λ o. o.organization_id == organization_id) (patched payload) d.organizations.rows in
    if sets_column payload
    then if is_some (get_organization_row organization_id d)
        && slug_taken organization_id payload.slug d.organizations.rows
      then (err Error.conflict, d)
      else (
        ok (find (λ o. o.organization_id == organization_id) rows),
        record d { organizations = set_rows rows d.organizations },
      )
    else (ok (get_organization_row organization_id d), d)

abbrev pub new_membership : ℕ → ℕ → Bool → ℕ → Membership
new_membership employee_id organization_id is_admin id = record {
  membership_id = id;
  employee_id = employee_id;
  organization_id = organization_id;
  is_admin = is_admin;
}

-- UNIQUE (employee_id, organization_id)
unfoldable pub add_membership : ℕ → ℕ → Bool → Exec Db Membership
add_membership employee_id organization_id is_admin d =
    if is_some (find (is_membership organization_id employee_id) d.memberships.rows)
    then (err Error.conflict, d)
    else (
      ok (new_membership employee_id organization_id is_admin d.memberships.next_id),
      record d {
        memberships =
            insert_row (new_membership employee_id organization_id is_admin) d.memberships;
      },
    )

-- The roles of a deleted membership: `membership_roles.membership_id ... ON DELETE CASCADE`.
abbrev pub of_deleted : ℕ → ℕ → List Membership → MembershipRole → Bool
of_deleted organization_id employee_id memberships mr =
    any
      (λ (m : Membership).
        is_membership organization_id employee_id m && m.membership_id == mr.membership_id)
      memberships

unfoldable pub remove_membership : ℕ → ℕ → Exec Db ℕ
remove_membership employee_id organization_id d = (
  ok (count (is_membership organization_id employee_id) d.memberships.rows),
  record d {
    memberships =
        set_rows (delete (is_membership organization_id employee_id) d.memberships.rows)
          d.memberships;
    membership_roles =
        delete (of_deleted organization_id employee_id d.memberships.rows) d.membership_roles;
  },
)

abbrev pub is_admin_of : ℕ → Membership → Bool
is_admin_of organization_id m = m.organization_id == organization_id && m.is_admin

-- `count_admins`, and the number of the rows that `lock_admin_memberships` returns
unfoldable pub count_admins : ℕ → Db → ℕ
count_admins organization_id d = count (is_admin_of organization_id) d.memberships.rows

unfoldable pub user_exists : ℕ → Db → Bool
user_exists employee_id d = is_some (find (λ u. u.employee_id == employee_id) d.users.rows)
