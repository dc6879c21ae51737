-- ===== src/Access/Platform.antt =====
-- access/service.py: the platform's catalogue and its super administrators.
use ats_onework.Prelude.{
  ℕ, String, Bool, Option, none, some, List, [], ◌∷◌, ◌&&◌, ◌==◌, leb, not, any, map, count,
}
use ats_onework.Exec.{Exec, Error, pure, gets, or_raise, raise_if, ◌>>=◌, ◌>>◌}
use ats_onework.Schema.{
  Db, User, Organization, CatalogEntry, lit, num, AuditValue, null, text, number, flag, names,
}
use ats_onework.Audit.{log}
use ats_onework.Access.Order.{order_by}
use ats_onework.Access.Repository.{set_superuser, list_superusers}
use ats_onework.Access.Lists.{list_catalog}
use ats_onework.Access.Catalog.{
  get_catalog_entry, create_catalog_entry, update_catalog_entry, delete_catalog_entry,
  install_permissions, install_roles,
}
use ats_onework.Prelude.{is_some}

pub record InstallResult : Type 0 where
  pub permissions_installed : ℕ
  pub roles_installed : ℕ

unfoldable pub create_entry :
    ℕ → String → String → Option String → List String → Exec Db CatalogEntry
create_entry actor_id kind name description grants = do
  existing ← gets (get_catalog_entry kind name)
  raise_if (is_some existing) Error.conflict
  row ← create_catalog_entry kind name description grants
  log (some actor_id) none (lit "access.catalog.create" ∷ []) "access_catalog" (num row.catalog_id)
      none
      (some (
        ("kind", text (lit kind ∷ []))
        ∷ ("name", text (lit name ∷ []))
        ∷ ("grants", names grants)
        ∷ []))
  pure row

abbrev names_or_null : Option (List String) → AuditValue
names_or_null none = null
names_or_null (some ns) = names ns

unfoldable pub update_entry :
    ℕ → String → String → Option String → Option (List String) → Exec Db CatalogEntry
update_entry actor_id kind name description grants = do
  found ← update_catalog_entry kind name description grants
  row ← or_raise found Error.not_found
  log (some actor_id) none (lit "access.catalog.update" ∷ []) "access_catalog" (num row.catalog_id)
      none
      (some (
        ("kind", text (lit kind ∷ []))
        ∷ ("name", text (lit name ∷ []))
        ∷ ("grants", names_or_null grants)
        ∷ []))
  pure row

unfoldable pub delete_entry : ℕ → String → String → Exec Db (Unit {0})
delete_entry actor_id kind name = do
  deleted ← delete_catalog_entry kind name
  raise_if (deleted == 0) Error.not_found
  log (some actor_id) none (lit "access.catalog.delete" ∷ []) "access_catalog" (lit name)
      (some (("kind", text (lit kind ∷ [])) ∷ ("name", text (lit name ∷ [])) ∷ [])) none

module _ (collates : String → String → Bool) where
  unfoldable pub install_catalog : ℕ → ℕ → Exec Db InstallResult
  install_catalog actor_id organization_id = do
    permissions ← install_permissions organization_id
    roles ← install_roles collates organization_id
    log (some actor_id) (some organization_id) (lit "access.catalog.install" ∷ []) "organizations"
        (num organization_id) none
        (some
          (("permissions_installed", number permissions) ∷ ("roles_installed", number roles) ∷ []))
    pure (record { permissions_installed = permissions; roles_installed = roles })

  unfoldable pub list_entries : Exec Db (List CatalogEntry)
  list_entries = gets (list_catalog collates)

-- An organization with the number of its members (`list_all_organizations`).
pub record OrganizationCount : Type 0 where
  pub organization : Organization
  pub member_count : ℕ

abbrev with_count : Db → Organization → OrganizationCount
with_count d o = record {
  organization = o;
  member_count = count (λ m. m.organization_id == o.organization_id) d.memberships.rows;
}

abbrev organizations_before : Organization → Organization → Bool
organizations_before o p = leb o.organization_id p.organization_id

unfoldable pub list_organizations : Exec Db (List OrganizationCount)
list_organizations =
    gets λ d. map (with_count d) (order_by organizations_before d.organizations.rows)

unfoldable pub list_administrators : Exec Db (List User)
list_administrators = gets list_superusers

-- Whether the actor would drop their own rights.
abbrev pub drops_own : ℕ → ℕ → Bool → List User → Bool
drops_own actor_id employee_id is_superuser current =
    not is_superuser
    && employee_id == actor_id
    && any (λ (u : User). u.employee_id == actor_id) current

unfoldable pub change_superuser : ℕ → ℕ → Bool → Exec Db User
change_superuser actor_id employee_id is_superuser = do
  current ← gets list_superusers
  raise_if (drops_own actor_id employee_id is_superuser current) Error.conflict
  found ← set_superuser employee_id is_superuser
  row ← or_raise found Error.not_found
  log (some actor_id) none (lit "access.superuser.update" ∷ []) "users" (num employee_id) none
      (some (("is_superuser", flag is_superuser) ∷ []))
  pure row
