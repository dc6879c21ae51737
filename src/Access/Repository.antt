-- ===== src/Access/Repository.antt =====
-- access/repository.py over the tables: capabilities, roles, grants and super administrators. The
-- database's collation of names, by which ORDER BY sorts, is the parameter `collates`.
use ats_onework.Prelude.{
  ℕ, String, Bool, true, Option, none, some, List, [], ◌∷◌, ◌++◌, ◌&&◌, ◌==◌, leb, if◌then◌else◌,
  any, find, select, update, delete, is_some, is_value, map,
}
use ats_onework.Prelude.Text.{text_eq}
use ats_onework.Exec.{Exec, Error, ok, err}
use ats_onework.Schema.{
  Db, User, Permission, Role, RolePermission, UserPermission, insert_row, set_rows,
}
use ats_onework.Access.Order.{order_by}

-- `name = ANY(names)`, and Python's `name in names`
abbrev pub among : List String → String → Bool
among names name = any (text_eq name) names

-- `role_id = ANY(role_ids)`
abbrev pub among_ids : List ℕ → ℕ → Bool
among_ids ids id = any (λ i. i == id) ids

-- INSERT ... SELECT ... ON CONFLICT DO NOTHING, where `conflicts` compares the primary keys
module _ {A : Type 0} (conflicts : A → A → Bool) where
  abbrev pub insert_new : A → List A → List A
  insert_new x rows = if any (conflicts x) rows then rows else rows ++ x ∷ []

  abbrev pub insert_all : List A → List A → List A
  insert_all [] rows = rows
  insert_all (x ∷ xs) rows = insert_all xs (insert_new x rows)

-- Capabilities.

abbrev pub is_capability : ℕ → String → Permission → Bool
is_capability organization_id api_name p =
    p.organization_id == organization_id && text_eq p.api_name api_name

unfoldable pub get_permission : ℕ → String → Db → Option Permission
get_permission organization_id api_name d =
    find (is_capability organization_id api_name) d.permissions.rows

abbrev pub new_permission : ℕ → String → Option String → ℕ → Permission
new_permission organization_id api_name description id = record {
  permission_id = id;
  api_name = api_name;
  organization_id = organization_id;
  is_global = true;
  description = description;
}

-- UNIQUE (api_name, organization_id)
unfoldable pub create_permission : ℕ → String → Option String → Exec Db Permission
create_permission organization_id api_name description d =
    if is_some (get_permission organization_id api_name d) then (err Error.conflict, d) else (
      ok (new_permission organization_id api_name description d.permissions.next_id),
      record d {
        permissions =
            insert_row (new_permission organization_id api_name description) d.permissions;
      },
    )

-- Roles.

unfoldable pub get_role : ℕ → ℕ → Db → Option Role
get_role organization_id role_id d =
    find (λ r. r.organization_id == organization_id && r.role_id == role_id) d.roles.rows

abbrev pub is_role : ℕ → String → Role → Bool
is_role organization_id name r = r.organization_id == organization_id && text_eq r.name name

unfoldable pub get_role_by_name : ℕ → String → Db → Option Role
get_role_by_name organization_id name d = find (is_role organization_id name) d.roles.rows

abbrev pub new_role : ℕ → String → Option String → ℕ → Role
new_role organization_id name description id = record {
  role_id = id;
  name = name;
  organization_id = organization_id;
  description = description;
  is_active = true;
}

-- UNIQUE (name, organization_id)
unfoldable pub create_role : ℕ → String → Option String → Exec Db Role
create_role organization_id name description d =
    if is_some (get_role_by_name organization_id name d) then (err Error.conflict, d) else (
      ok (new_role organization_id name description d.roles.next_id),
      record d { roles = insert_row (new_role organization_id name description) d.roles },
    )

-- Grants.

abbrev pub add_name : Option Permission → List String → List String
add_name none rest = rest
add_name (some p) rest = p.api_name ∷ rest

-- The names of the capabilities with these keys: JOIN permissions.
unfoldable pub names_of : List Permission → List ℕ → List String
names_of permissions [] = []
names_of permissions (id ∷ ids) =
    add_name (find (λ p. p.permission_id == id) permissions) (names_of permissions ids)

-- The capabilities of the organization that are asked for by name.
abbrev pub asked_for : ℕ → List String → List Permission → List Permission
asked_for organization_id api_names permissions =
    select (λ p. p.organization_id == organization_id && among api_names p.api_name) permissions

abbrev pub grants_of : ℕ → ℕ → RolePermission → Bool
grants_of organization_id role_id rp =
    rp.organization_id == organization_id && rp.role_id == role_id

abbrev pub same_grant : RolePermission → RolePermission → Bool
same_grant x y = x.role_id == y.role_id && x.permission_id == y.permission_id

abbrev pub role_grant : ℕ → ℕ → Permission → RolePermission
role_grant organization_id role_id p = record {
  role_id = role_id;
  permission_id = p.permission_id;
  organization_id = organization_id;
}

-- An empty list of names inserts nothing, as no name is among it.
unfoldable pub replace_role_grants : ℕ → ℕ → List String → Exec Db (Unit {0})
replace_role_grants organization_id role_id api_names d = (
  ok tt,
  record d {
    role_permissions =
        insert_all same_grant
          (map (role_grant organization_id role_id)
            (asked_for organization_id api_names d.permissions.rows))
          (delete (grants_of organization_id role_id) d.role_permissions);
  },
)

abbrev pub grants_to : ℕ → ℕ → UserPermission → Bool
grants_to organization_id employee_id up =
    is_value up.organization_id organization_id && up.employee_id == employee_id

abbrev pub same_direct : UserPermission → UserPermission → Bool
same_direct x y = x.employee_id == y.employee_id && x.permission_id == y.permission_id

abbrev pub direct_grant : ℕ → ℕ → Permission → UserPermission
direct_grant organization_id employee_id p = record {
  employee_id = employee_id;
  permission_id = p.permission_id;
  organization_id = some organization_id;
}

unfoldable pub replace_user_grants : ℕ → ℕ → List String → Exec Db (Unit {0})
replace_user_grants organization_id employee_id api_names d = (
  ok tt,
  record d {
    user_permissions =
        insert_all same_direct
          (map (direct_grant organization_id employee_id)
            (asked_for organization_id api_names d.permissions.rows))
          (delete (grants_to organization_id employee_id) d.user_permissions);
  },
)

-- Super administrators.

abbrev pub with_superuser : Bool → User → User
with_superuser is_superuser u = record u { is_superuser = is_superuser }

unfoldable pub set_superuser : ℕ → Bool → Exec Db (Option User)
set_superuser employee_id is_superuser d =
    let rows =
      update (λ u. u.employee_id == employee_id) (with_superuser is_superuser) d.users.rows in
    (ok (find (λ u. u.employee_id == employee_id) rows), record d { users = set_rows rows d.users })

abbrev employees_before : User → User → Bool
employees_before u v = leb u.employee_id v.employee_id

unfoldable pub list_superusers : Db → List User
list_superusers d = order_by employees_before (select (λ u. u.is_superuser) d.users.rows)
