-- ===== src/Auth/Repository.antt =====
-- auth/repository.py over the tables, with the constraints of backend/migrations.
use text.Mathlib.Text.{◌==◌ as str_eq}
use ats_onework.Prelude.{
  ℕ, String, Bool, false, Option, none, some, List, [], ◌∷◌, ◌&&◌, not, ◌==◌, leb, if◌then◌else◌,
  find, select, update, delete, is_some,
}
use ats_onework.Exec.{Exec, Error, ok, err, modify}
use ats_onework.Constants.{AccountStatus, TokenPurpose, eq_purpose}
use ats_onework.Schema.{
  Db, User, Membership, Organization, AuthenticationToken, insert_row, set_rows,
}
use ats_onework.Tenant
use ats_onework.Auth.Libraries.{Libraries}

unfoldable pub get_user_by_email : Libraries → String → Db → Option User
get_user_by_email lib email d = find (λ u. str_eq u.email (lib.lower email)) d.users.rows

unfoldable pub get_user_by_id : ℕ → Db → Option User
get_user_by_id employee_id d = find (λ u. u.employee_id == employee_id) d.users.rows

abbrev pub new_user : String → String → String → ℕ → User
new_user name email password_hash id = record {
  employee_id = id;
  name = name;
  email = email;
  password_hash = password_hash;
  account_status = AccountStatus.active;
  is_superuser = false;
  last_login_at = none;
}

-- `email ... UNIQUE`
unfoldable pub create_user : Libraries → String → String → String → Exec Db User
create_user lib name email password_hash d =
    let row : ℕ → User = new_user name (lib.lower email) password_hash in
    if is_some (find (λ u. str_eq u.email (lib.lower email)) d.users.rows)
    then (err Error.conflict, d)
    else (ok (row d.users.next_id), record d { users = insert_row row d.users })

abbrev set_users : (User → User) → ℕ → Db → Db
set_users f employee_id d = record d {
  users = set_rows (update (λ u. u.employee_id == employee_id) f d.users.rows) d.users;
}

unfoldable pub update_password_hash : ℕ → String → Exec Db (Unit {0})
update_password_hash employee_id password_hash =
    modify (set_users (λ u. record u { password_hash = password_hash }) employee_id)

unfoldable pub update_last_login : ℕ → ℕ → Exec Db (Unit {0})
update_last_login employee_id at =
    modify (set_users (λ u. record u { last_login_at = some at }) employee_id)

pub record OrganizationSummary : Type 0 where
  pub organization_id : ℕ
  pub is_admin : Bool
  pub name : String
  pub slug : String

-- ORDER BY m.organization_id ASC
abbrev pub insert_asc : OrganizationSummary → List OrganizationSummary → List OrganizationSummary
insert_asc s [] = s ∷ []
insert_asc s (x ∷ xs) =
    let rest = insert_asc s xs in
    if leb s.organization_id x.organization_id then s ∷ x ∷ xs else x ∷ rest

abbrev pub join_organization :
    Membership → Option Organization → List OrganizationSummary → List OrganizationSummary
join_organization m none rest = rest
join_organization m (some o) rest =
    insert_asc
      (record {
        organization_id = m.organization_id;
        is_admin = m.is_admin;
        name = o.name;
        slug = o.slug;
      })
      rest

abbrev pub join_all : List Organization → List Membership → List OrganizationSummary
join_all os [] = []
join_all os (m ∷ ms) =
    join_organization m (find (λ o. o.organization_id == m.organization_id) os) (join_all os ms)

unfoldable pub list_memberships : ℕ → Db → List OrganizationSummary
list_memberships employee_id d =
    join_all d.organizations.rows (select (λ m. m.employee_id == employee_id) d.memberships.rows)

abbrev pub get_membership : ℕ → ℕ → Db → Option Membership
get_membership employee_id organization_id d =
    Tenant.get_membership employee_id organization_id d.memberships.rows

unfoldable pub organization_exists : ℕ → Db → Bool
organization_exists organization_id d =
    is_some (find (λ o. o.organization_id == organization_id) d.organizations.rows)

abbrev pub family_or : Option ℕ → ℕ → ℕ
family_or none drawn = drawn
family_or (some family_id) drawn = family_id

abbrev pub new_token : ℕ → ℕ → String → TokenPurpose → ℕ → ℕ → ℕ → AuthenticationToken
new_token now employee_id token_hash purpose expires_at family_id id = record {
  token_id = id;
  employee_id = employee_id;
  token_hash = token_hash;
  purpose = purpose;
  expires_at = expires_at;
  created_at = now;
  family_id = family_id;
  replaced_by_token_id = none;
  revoked_at = none;
}

abbrev pub has_hash : String → AuthenticationToken → Bool
has_hash token_hash t = str_eq t.token_hash token_hash

-- UNIQUE (token_hash); `drawn` is what `gen_random_uuid()` gives.
unfoldable pub insert_token :
    ℕ → String → TokenPurpose → ℕ → Option ℕ → ℕ → Exec Db AuthenticationToken
insert_token employee_id token_hash purpose expires_at family_id drawn d =
    let row : ℕ → AuthenticationToken =
      new_token d.now employee_id token_hash purpose expires_at (family_or family_id drawn) in
    if is_some (find (has_hash token_hash) d.authentication_tokens.rows)
    then (err Error.conflict, d)
    else (
      ok (row d.authentication_tokens.next_id),
      record d { authentication_tokens = insert_row row d.authentication_tokens },
    )

unfoldable pub get_token : String → TokenPurpose → Db → Option AuthenticationToken
get_token token_hash purpose d =
    find (λ t. has_hash token_hash t && eq_purpose t.purpose purpose) d.authentication_tokens.rows

unfoldable pub get_token_by_id : ℕ → Db → Option AuthenticationToken
get_token_by_id token_id d = find (λ t. t.token_id == token_id) d.authentication_tokens.rows

abbrev pub on_tokens : (List AuthenticationToken → List AuthenticationToken) → Db → Db
on_tokens f d = record d {
  authentication_tokens = set_rows (f d.authentication_tokens.rows) d.authentication_tokens;
}

abbrev pub has_token_id : ℕ → AuthenticationToken → Bool
has_token_id token_id t = t.token_id == token_id

abbrev pub replace_by : Option ℕ → AuthenticationToken → AuthenticationToken
replace_by replaced_by_token_id t = record t { replaced_by_token_id = replaced_by_token_id }

unfoldable pub mark_rotated : ℕ → ℕ → Exec Db (Unit {0})
mark_rotated token_id replaced_by_token_id =
    modify (on_tokens (update (has_token_id token_id) (replace_by (some replaced_by_token_id))))

-- `AND revoked_at IS NULL`
abbrev pub is_unrevoked : AuthenticationToken → Bool
is_unrevoked t = not (is_some t.revoked_at)

abbrev pub revoke_at : ℕ → AuthenticationToken → AuthenticationToken
revoke_at now t = record t { revoked_at = some now }

abbrev pub unrevoked_in : ℕ → AuthenticationToken → Bool
unrevoked_in family_id t = t.family_id == family_id && is_unrevoked t

abbrev pub unrevoked_refresh_of : ℕ → AuthenticationToken → Bool
unrevoked_refresh_of employee_id t =
    (t.employee_id == employee_id && eq_purpose t.purpose TokenPurpose.refresh) && is_unrevoked t

unfoldable pub revoke_family : ℕ → Exec Db (Unit {0})
revoke_family family_id d = modify (on_tokens (update (unrevoked_in family_id) (revoke_at d.now))) d

unfoldable pub revoke_refresh_tokens_for_employee : ℕ → Exec Db (Unit {0})
revoke_refresh_tokens_for_employee employee_id d =
    modify (on_tokens (update (unrevoked_refresh_of employee_id) (revoke_at d.now))) d

-- ON DELETE SET NULL of `replaced_by_token_id`
abbrev pub points_at : ℕ → Option ℕ → Bool
points_at id none = false
points_at id (some k) = k == id

abbrev pub forget_token :
    Option AuthenticationToken → List AuthenticationToken → List AuthenticationToken
forget_token none rows = rows
forget_token (some gone) rows =
    update (λ t. points_at gone.token_id t.replaced_by_token_id) (replace_by none) rows

unfoldable pub delete_token : String → Exec Db (Unit {0})
delete_token token_hash d =
    modify
      (on_tokens (λ rows.
        forget_token (find (has_hash token_hash) rows) (delete (has_hash token_hash) rows)))
      d
