-- ===== src/Access/Catalog.antt =====
-- access/repository.py: the platform's catalogue, and its installation into an organization
-- (backend/migrations/0009_access_catalogue.sql).
use ats_onework.Prelude.{
  ℕ, String, Bool, Option, none, some, List, [], ◌∷◌, ◌++◌, ◌+◌, ◌&&◌, ◌||◌, ◌==◌, not,
  if◌then◌else◌, any, find, select, update, delete, is_some, map, length, count,
}
use ats_onework.Prelude.Text.{text_eq}
use ats_onework.Exec.{Exec, Error, ok, err}
use ats_onework.Schema.{
  Db, Table, Permission, Role, RolePermission, CatalogEntry, insert_row, set_rows,
}
use ats_onework.Access.Order.{order_by}
use ats_onework.Access.Repository.{
  among, insert_all, is_capability, new_permission, is_role, new_role, same_grant, role_grant,
}

abbrev pub is_entry : String → String → CatalogEntry → Bool
is_entry kind name c = text_eq c.kind kind && text_eq c.name name

unfoldable pub get_catalog_entry : String → String → Db → Option CatalogEntry
get_catalog_entry kind name d = find (is_entry kind name) d.access_catalog.rows

abbrev pub new_entry : String → String → Option String → List String → ℕ → CatalogEntry
new_entry kind name description grants id = record {
  catalog_id = id;
  kind = kind;
  name = name;
  description = description;
  grants = grants;
}

-- CHECK (kind IN ('permission', 'role')), and then UNIQUE (kind, name).
unfoldable pub create_catalog_entry :
    String → String → Option String → List String → Exec Db CatalogEntry
create_catalog_entry kind name description grants d =
    if text_eq kind "permission" || text_eq kind "role"
    then if is_some (get_catalog_entry kind name d) then (err Error.conflict, d) else (
      ok (new_entry kind name description grants d.access_catalog.next_id),
      record d {
        access_catalog = insert_row (new_entry kind name description grants) d.access_catalog;
      },
    )
    else (err Error.validation, d)

abbrev or_old {ℓ} : {A : Type ℓ} → Option A → A → A
or_old none old = old
or_old (some new) old = new

abbrev or_kept : Option String → Option String → Option String
or_kept none old = old
or_kept (some new) old = some new

abbrev pub edited : Option String → Option (List String) → CatalogEntry → CatalogEntry
edited description grants c = record c {
  description = or_kept description c.description;
  grants = or_old grants c.grants;
}

-- With no column to set, the row is only read.
unfoldable pub update_catalog_entry :
    String → String → Option String → Option (List String) → Exec Db (Option CatalogEntry)
update_catalog_entry kind name description grants d =
    let rows = update (is_entry kind name) (edited description grants) d.access_catalog.rows in
    if is_some description || is_some grants
    then (
      ok (find (is_entry kind name) rows),
      record d { access_catalog = set_rows rows d.access_catalog },
    )
    else (ok (get_catalog_entry kind name d), d)

unfoldable pub delete_catalog_entry : String → String → Exec Db ℕ
delete_catalog_entry kind name d = (
  ok (count (is_entry kind name) d.access_catalog.rows),
  record d {
    access_catalog = set_rows (delete (is_entry kind name) d.access_catalog.rows) d.access_catalog;
  },
)

-- INSERT ... SELECT: each row takes the next key.
module _ {A B : Type 0} (row : B → ℕ → A) where
  abbrev pub insert_rows : List B → Table A → Table A
  insert_rows [] t = t
  insert_rows (b ∷ bs) t = insert_rows bs (insert_row (row b) t)

-- The capabilities of the catalogue that the organization lacks.
abbrev pub is_missing : ℕ → List Permission → CatalogEntry → Bool
is_missing org permissions c =
    text_eq c.kind "permission" && not (is_some (find (is_capability org c.name) permissions))

abbrev pub capability_of : ℕ → CatalogEntry → ℕ → Permission
capability_of org c = new_permission org c.name c.description

-- ats_install_permissions
unfoldable pub install_permissions : ℕ → Exec Db ℕ
install_permissions org d =
    let missing = select (is_missing org d.permissions.rows) d.access_catalog.rows in
    (
      ok (length missing),
      record d { permissions = insert_rows (capability_of org) missing d.permissions },
    )

-- The roles of that name, with the table of grants: what the two EXISTS of the loop read.
abbrev pub has_grants : ℕ → String → List Role → List RolePermission → Bool
has_grants org name roles grants =
    any
      (λ (rp : RolePermission).
        any (λ (r : Role). r.role_id == rp.role_id && is_role org name r) roles)
      grants

-- The standard capabilities that the entry grants, as the organization holds them.
abbrev pub standard : ℕ → CatalogEntry → List CatalogEntry → List Permission → List Permission
standard org entry catalog permissions =
    select
      (λ p.
        p.organization_id == org
        && any
            (λ (c : CatalogEntry).
              text_eq c.kind "permission" && text_eq c.name p.api_name && among entry.grants c.name)
            catalog)
      permissions

abbrev pub standard_grants : ℕ → List Permission → List Role → List RolePermission
standard_grants org permissions [] = []
standard_grants org permissions (r ∷ rs) =
    map (role_grant org r.role_id) permissions ++ standard_grants org permissions rs

-- A role that grants nothing takes the grants of the catalogue.
unfoldable pub grant_standard : ℕ → CatalogEntry → Db → Db
grant_standard org entry d =
    if has_grants org entry.name d.roles.rows d.role_permissions then d else record d {
      role_permissions =
          insert_all same_grant
            (standard_grants org (standard org entry d.access_catalog.rows d.permissions.rows)
              (select (is_role org entry.name) d.roles.rows))
            d.role_permissions;
    }

-- One turn of the loop, with the number of roles that it creates.
unfoldable pub install_role : ℕ → CatalogEntry → Db → ℕ × Db
install_role org entry d =
    if is_some (find (is_role org entry.name) d.roles.rows)
    then (0, grant_standard org entry d)
    else (
      1,
      grant_standard org entry
          (record d { roles = insert_row (new_role org entry.name entry.description) d.roles }),
    )

unfoldable pub install_each : ℕ → List CatalogEntry → Db → ℕ × Db
install_each org [] d = (0, d)
install_each org (entry ∷ entries) d =
    let (n, d1) = install_role org entry d in
    let (m, d2) = install_each org entries d1 in (n + m, d2)

-- ats_install_roles; `collates` orders the names.
unfoldable pub install_roles : (String → String → Bool) → ℕ → Exec Db ℕ
install_roles collates org d =
    let (n, d') =
      install_each org
        (order_by (λ x y. collates x.name y.name)
          (select (λ c. text_eq c.kind "role") d.access_catalog.rows))
        d in
    (ok n, d')
