-- ===== src/Dependencies.antt =====
-- api/v1/deps.py, with the request dependencies of common/permissions.py and `decode_access_token`
-- of core/security/jwt.py: who a request acts for.
pub mod Bearer
pub mod Guards
use ats_onework.Prelude.{
  ℕ, String, Bool, true, false, Option, none, some, List, ◌&&◌, ◌==◌, not, any, find,
}
use ats_onework.Prelude.Text.{text_eq}
use ats_onework.Exec.{Exec, Error, pure, raise, gets, or_raise, raise_if, ◌>>=◌, ◌>>◌}
use ats_onework.Constants.{AccountStatus, eq_account}
use ats_onework.Schema.{Db, User, Membership}
use ats_onework.Auth.Service.{AccessClaims}
use ats_onework.Permissions.{has_permission, require_path_membership}

-- The claims of a token whose signature and expiry PyJWT has accepted; `none` where `int` fails on
-- the claim, or there is none.
pub record Payload : Type 0 where
  pub type : Option String
  pub sub : Option ℕ
  pub org : Option ℕ
  pub admin : Bool

abbrev pub is_access : Option String → Bool
is_access none = false
is_access (some type) = text_eq type "access"

abbrev pub claims_of : Bool → Option ℕ → Option ℕ → Exec Db AccessClaims
claims_of admin (some sub) (some org) =
    pure (record { employee_id = sub; organization_id = org; is_admin = admin })
claims_of admin _ _ = raise Error.authentication

pub record CurrentUser : Type 0 where
  pub employee_id : ℕ
  pub organization_id : ℕ
  pub is_admin : Bool
  pub is_superuser : Bool

abbrev pub user_of : AccessClaims → User → CurrentUser
user_of claims row = record {
  employee_id = claims.employee_id;
  organization_id = claims.organization_id;
  is_admin = claims.is_admin;
  is_superuser = row.is_superuser;
}

-- The account of a token, if it is active.
unfoldable pub active_user : AccessClaims → Exec Db CurrentUser
active_user claims d =
    (do
      row ←
          or_raise (find (λ u. u.employee_id == claims.employee_id) d.users.rows)
            Error.authentication
      raise_if (not (eq_account row.account_status AccountStatus.active)) Error.authorization
      pure (user_of claims row))
      d

abbrev pub joined : Option User → Option Membership → Option (Membership × User)
joined (some u) (some m) = some (m, u)
joined _ _ = none

-- The user with the flag of the membership that the database has now.
unfoldable pub with_membership : CurrentUser → Exec Db CurrentUser
with_membership user d =
    (do
      row ←
          or_raise
            (joined (find (λ u. u.employee_id == user.employee_id) d.users.rows) (
              find
                (λ m.
                  m.employee_id == user.employee_id && m.organization_id == user.organization_id)
                d.memberships.rows))
            Error.authorization
      raise_if (not (eq_account row.1.account_status AccountStatus.active)) Error.authorization
      pure (record user { is_admin = row.0.is_admin }))
      d

-- The check of `RequireAnyPermission`, and with a single name of `RequirePermission`.
unfoldable pub holding_any : List String → CurrentUser → Exec Db CurrentUser
holding_any api_names user d =
    (do
      raise_if (not (any (λ n. has_permission user.employee_id user.organization_id n d) api_names))
          Error.authorization
      pure user)
      d

-- `jwt_decode` is `jwt.decode` with the settings' secret and algorithm, `none` where it raises.
module _ (jwt_decode : String → Option Payload) where
  unfoldable pub decode_access_token : String → Exec Db AccessClaims
  decode_access_token token = do
    payload ← or_raise (jwt_decode token) Error.authentication
    raise_if (not (is_access payload.type)) Error.authentication
    claims_of payload.admin payload.sub payload.org

  unfoldable pub get_current_user : Option String → Exec Db CurrentUser
  get_current_user none = raise Error.authentication
  get_current_user (some credentials) = do
    claims ← decode_access_token credentials
    active_user claims

  unfoldable pub require_membership : Option String → Exec Db CurrentUser
  require_membership credentials = do user ← get_current_user credentials; with_membership user

  unfoldable pub require_current_admin : Option String → Exec Db CurrentUser
  require_current_admin credentials = do
    user ← require_membership credentials
    raise_if (not user.is_admin) Error.authorization
    pure user

  unfoldable pub require_superuser : Option String → Exec Db CurrentUser
  require_superuser credentials = do
    user ← get_current_user credentials
    raise_if (not user.is_superuser) Error.authorization
    pure user

  unfoldable pub require_any_permission : List String → Option String → Exec Db CurrentUser
  require_any_permission api_names credentials = do
    user ← require_membership credentials
    holding_any api_names user
