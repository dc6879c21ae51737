-- ===== src/Auth/Service.antt =====
-- auth/service.py: `AuthService`.
use package.text.Mathlib.Text.{◌==◌ as str_eq}
use ats_onework.Prelude.{
  ℕ, String, Bool, true, false, Option, none, some, List, [], ◌∷◌, ◌+◌, ◌&&◌, not, ◌==◌,
  if◌then◌else◌, is_some,
}
use ats_onework.Exec.{Exec, Error, pure, raise, gets, or_raise, ◌>>=◌, ◌>>◌, raise_if}
use ats_onework.Constants.{AccountStatus, TokenPurpose, eq_account}
use ats_onework.Schema.{num, Db, User, AuthenticationToken, lit, text}
use ats_onework.Audit.{log}
use ats_onework.Auth.Libraries.{Libraries, Draw, is_weak, is_expired}
use ats_onework.Auth.Connection.{Conn, on_current, commit}
use ats_onework.Auth.Repository.{
  OrganizationSummary, get_user_by_email, get_user_by_id, create_user, update_password_hash,
  update_last_login, list_memberships, get_membership, organization_exists, insert_token, get_token,
  get_token_by_id, mark_rotated, revoke_family, revoke_refresh_tokens_for_employee, delete_token,
}

-- The claims that `create_access_token` signs.
pub record AccessClaims : Type 0 where
  pub employee_id : ℕ
  pub organization_id : ℕ
  pub is_admin : Bool

pub record TokenPair : Type 0 where
  pub access_token : AccessClaims
  pub refresh_token : String
  pub organizations : List OrganizationSummary

-- `_default_org`
abbrev pub default_org : List OrganizationSummary → ℕ × Bool
default_org [] = (0, false)
default_org (first ∷ rest) = (first.organization_id, first.is_admin)

-- `_ensure_active`
abbrev pub ensure_active : AccountStatus → Exec Db (Unit {0})
ensure_active account_status =
    raise_if (not (eq_account account_status AccountStatus.active)) Error.authorization

-- The rehash of an outdated password hash.
abbrev pub rehash : ℕ → Option String → Exec Db (Unit {0})
rehash employee_id none = pure tt
rehash employee_id (some new_hash) = update_password_hash employee_id new_hash

abbrev pub touch : Bool → ℕ → Exec Db (Unit {0})
touch false employee_id = pure tt
touch true employee_id = do at ← gets (λ d. d.now); update_last_login employee_id at

abbrev pair : ℕ → Draw → List OrganizationSummary → TokenPair
pair employee_id draw summaries = record {
  access_token = record {
    employee_id = employee_id;
    organization_id = (default_org summaries).0;
    is_admin = (default_org summaries).1;
  };
  refresh_token = draw.token;
  organizations = summaries;
}

module _ (lib : Libraries) where
  unfoldable pub register : String → String → String → Exec Db User
  register name email password = do
    existing ← gets (get_user_by_email lib email)
    raise_if (is_some existing) Error.conflict
    raise_if (is_weak lib password email) Error.validation
    row ← create_user lib name email (lib.hash_password password)
    log (some row.employee_id) none (lit "user.register" ∷ []) "users" (num row.employee_id) none
        (some (("email", text (lit row.email ∷ [])) ∷ ("name", text (lit row.name ∷ [])) ∷ []))
    pure row

  -- What `change_password` writes.
  unfoldable pub store_password : ℕ → String → Exec Db (Unit {0})
  store_password employee_id new_password = do
    update_password_hash employee_id (lib.hash_password new_password)
    revoke_refresh_tokens_for_employee employee_id
    log (some employee_id) none (lit "user.change_password" ∷ []) "users" (num employee_id) none
        none
    pure tt

  unfoldable pub change_password : ℕ → String → String → Exec Db (Unit {0})
  unfolding store_password
  change_password employee_id current_password new_password = do
    found ← gets (get_user_by_id employee_id)
    row ← or_raise found Error.not_found
    raise_if (not (lib.verify_and_update_password current_password row.password_hash).0)
        Error.authentication
    raise_if (str_eq current_password new_password) Error.validation
    raise_if (is_weak lib new_password row.email) Error.validation
    store_password employee_id new_password

  -- `insert_token` as the service calls it: a refresh token, hashed, with the usual lifetime
  unfoldable pub store_refresh : ℕ → Draw → Option ℕ → Exec Db AuthenticationToken
  store_refresh employee_id draw family_id = do
    now ← gets (λ d. d.now)
    insert_token employee_id (lib.hash_token draw.token) TokenPurpose.refresh
        (now + lib.refresh_token_lifetime) family_id draw.family_id

  -- `_issue_pair`
  unfoldable pub issue_pair : ℕ → Bool → Draw → Exec Db TokenPair
  unfolding store_refresh
  issue_pair employee_id touch_login draw = do
    summaries ← gets (list_memberships employee_id)
    store_refresh employee_id draw none
    touch touch_login employee_id
    pure (pair employee_id draw summaries)

  -- `_rotate`
  unfoldable pub rotate : ℕ → AuthenticationToken → Bool → Draw → Exec Db TokenPair
  unfolding store_refresh
  rotate employee_id previous touch_login draw = do
    summaries ← gets (list_memberships employee_id)
    inserted ← store_refresh employee_id draw (some previous.family_id)
    mark_rotated previous.token_id inserted.token_id
    touch touch_login employee_id
    pure (pair employee_id draw summaries)

  unfoldable pub login : String → String → Draw → Exec Db TokenPair
  unfolding issue_pair
  login email password draw = do
    found ← gets (get_user_by_email lib email)
    row ← or_raise found Error.authentication
    let verified = lib.verify_and_update_password password row.password_hash
    raise_if (not verified.0) Error.authentication
    ensure_active row.account_status
    rehash row.employee_id verified.1
    issue_pair row.employee_id true draw

  -- The replaced token was presented again: a retry if its replacement is live, or a replay.
  unfoldable pub refresh_replaced :
      AuthenticationToken → Option AuthenticationToken → Draw → Exec Conn TokenPair
  unfolding rotate
  refresh_replaced stored none draw = do
    on_current (revoke_family stored.family_id)
    commit
    raise Error.authentication
  refresh_replaced stored (some replacement) draw =
      if not (is_some replacement.replaced_by_token_id) && not (is_some replacement.revoked_at)
      then on_current (rotate replacement.employee_id replacement false draw)
      else (do on_current (revoke_family stored.family_id); commit; raise Error.authentication)

  -- The token that is presented for the first time.
  unfoldable pub refresh_first :
      String → AuthenticationToken → Option User → Draw → Exec Db TokenPair
  unfolding rotate
  refresh_first token_hash stored none draw = do delete_token token_hash; raise Error.authentication
  refresh_first token_hash stored (some user) draw = do
    ensure_active user.account_status
    rotate user.employee_id stored false draw

  -- What `refresh` does with the stored token once it is neither expired nor revoked.
  unfoldable pub refresh_live : String → AuthenticationToken → Option ℕ → Draw → Exec Conn TokenPair
  unfolding refresh_replaced refresh_first
  refresh_live token_hash stored (some replaced_by) draw = do
    replacement ← on_current (gets (get_token_by_id replaced_by))
    refresh_replaced stored replacement draw
  refresh_live token_hash stored none draw = do
    user ← on_current (gets (get_user_by_id stored.employee_id))
    on_current (refresh_first token_hash stored user draw)

  abbrev pub drop_expired : Bool → String → Exec Db (Unit {0})
  drop_expired false token_hash = pure tt
  drop_expired true token_hash = do delete_token token_hash; raise Error.authentication

  unfoldable pub refresh_checked : String → AuthenticationToken → Draw → ℕ → Exec Conn TokenPair
  unfolding refresh_live
  refresh_checked token_hash stored draw now = do
    on_current (drop_expired (is_expired now stored.expires_at) token_hash)
    raise_if (is_some stored.revoked_at) Error.authentication
    refresh_live token_hash stored stored.replaced_by_token_id draw

  -- What `refresh` does with the stored token.
  unfoldable pub refresh_found : String → AuthenticationToken → Draw → Exec Conn TokenPair
  unfolding refresh_checked
  refresh_found token_hash stored draw = do
    now ← on_current (gets (λ d. d.now))
    refresh_checked token_hash stored draw now

  unfoldable pub refresh : String → Draw → Exec Conn TokenPair
  unfolding refresh_found
  refresh refresh_token draw = do
    let token_hash = lib.hash_token refresh_token
    found ← on_current (gets (get_token token_hash TokenPurpose.refresh))
    stored ← or_raise found Error.authentication
    refresh_found token_hash stored draw

  -- What `logout` does with the token that it found.
  abbrev pub revoke_own : ℕ → Option AuthenticationToken → Exec Db (Unit {0})
  revoke_own employee_id none = pure tt
  revoke_own employee_id (some stored) =
      if not (stored.employee_id == employee_id) then pure tt else revoke_family stored.family_id

  unfoldable pub logout : ℕ → String → Exec Db (Unit {0})
  logout employee_id refresh_token = do
    found ← gets (get_token (lib.hash_token refresh_token) TokenPurpose.refresh)
    revoke_own employee_id found

  unfoldable pub switch_organization : ℕ → ℕ → Draw → Exec Db TokenPair
  unfolding store_refresh
  switch_organization employee_id organization_id draw = do
    exists ← gets (organization_exists organization_id)
    raise_if (not exists) Error.not_found
    found ← gets (get_membership employee_id organization_id)
    membership ← or_raise found Error.authorization
    revoke_refresh_tokens_for_employee employee_id
    store_refresh employee_id draw none
    summaries ← gets (list_memberships employee_id)
    pure (record {
      access_token = record {
        employee_id = employee_id;
        organization_id = organization_id;
        is_admin = membership.is_admin;
      };
      refresh_token = draw.token;
      organizations = summaries;
    })
