-- ===== src/Dependencies/Bearer.antt =====
-- The account that a request acts for, and the token that it carries.
use ats_onework.Prelude.{
  ℕ, String, Bool, true, false, Option, none, some, ◌≡◌, refl, sym, ap, subst, ◌∙◌, ◌==◌, not, find,
  arith,
}
use ats_onework.Prelude.Text.{text_eq_sound}
use ats_onework.Exec.{Exec, Error, ok, pure, raise_if, ◌>>◌}
use ats_onework.Exec.Inversion.{pure-eq-ok, >>=-eq-ok, or_raise-bind-eq-ok, raise_if-bind-eq-ok}
use ats_onework.Constants.{AccountStatus, eq_account}
use ats_onework.Schema.{Db, User}
use ats_onework.Auth.Service.{AccessClaims}
use ats_onework.Dependencies.{
  Payload, CurrentUser, claims_of, is_access, decode_access_token, user_of, active_user,
  get_current_user, require_superuser,
}

pub active-eq :
    (s : AccountStatus) → not (eq_account s AccountStatus.active) ≡ false → s ≡ AccountStatus.active
active-eq s h = ground arith

-- The account that a request acts for.
pub record IsActive (user : CurrentUser) (d : Db) : Type 0 where
  pub row : User
  pub found : find (λ u. u.employee_id == user.employee_id) d.users.rows ≡ some row
  pub active : row.account_status ≡ AccountStatus.active
  pub is_superuser : user.is_superuser ≡ row.is_superuser

-- The request carries an access token, whose claims name the user and the organization.
pub record IsBearer (jwt_decode : String → Option Payload) (credentials : Option String)
    (employee org : ℕ) : Type 0 where
  pub token : String
  pub carried : credentials ≡ some token
  pub payload : Payload
  pub decoded : jwt_decode token ≡ some payload
  pub is_access_token : payload.type ≡ some "access"
  pub of_employee : payload.sub ≡ some employee
  pub of_organization : payload.org ≡ some org

access-type : (type : Option String) → not (is_access type) ≡ false → type ≡ some "access"
access-type none h = absurd (cc)
access-type (some type) h = ap some (text_eq_sound type "access" (ground (arith, h)))

module _ (jwt_decode : String → Option Payload) where
  claims_of-eq-ok :
      (admin : Bool) (sub org : Option ℕ) (d : Db) {c : AccessClaims} {d' : Db}
      → claims_of admin sub org d ≡ (ok c, d')
      → (sub ≡ some c.employee_id) × (org ≡ some c.organization_id) × (d' ≡ d)
  claims_of-eq-ok admin (some s) (some o) d h =
      let (is_c, same) = pure-eq-ok h in
      (
        ap (λ (x : AccessClaims). some x.employee_id) (sym is_c),
        ap (λ (x : AccessClaims). some x.organization_id) (sym is_c),
        same,
      )
  claims_of-eq-ok admin none o d h = absurd (cc)
  claims_of-eq-ok admin (some s) none d h = absurd (cc)

  decode-eq-ok :
      (token : String) (d : Db) {c : AccessClaims} {d' : Db}
      → decode_access_token jwt_decode token d ≡ (ok c, d')
      → IsBearer jwt_decode (some token) c.employee_id c.organization_id × (d' ≡ d)
  unfolding decode_access_token
  decode-eq-ok token d h =
      let (p, got, h1) =
        or_raise-bind-eq-ok (jwt_decode token) Error.authentication
          (λ payload.
            raise_if (not (is_access payload.type)) Error.authentication
            >> claims_of payload.admin payload.sub payload.org)
          d h in
      let (access, h2) =
        raise_if-bind-eq-ok (not (is_access p.type)) Error.authentication
          (claims_of p.admin p.sub p.org) d h1 in
      let (sub, org, same) = claims_of-eq-ok p.admin p.sub p.org d h2 in
      (
        record {
          token = token;
          carried = refl;
          payload = p;
          decoded = got;
          is_access_token = access-type p.type access;
          of_employee = sub;
          of_organization = org;
        },
        same,
      )

  active_user-eq-ok :
      (claims : AccessClaims) (d : Db) {user : CurrentUser} {d' : Db}
      → active_user claims d ≡ (ok user, d')
      → IsActive user d
        × (user.employee_id ≡ claims.employee_id)
        × (user.organization_id ≡ claims.organization_id)
        × (d' ≡ d)
  unfolding active_user
  active_user-eq-ok claims d h =
      let by_id = find (λ u. u.employee_id == claims.employee_id) d.users.rows in
      let next : User → Exec Db CurrentUser = λ row.
        raise_if (not (eq_account row.account_status AccountStatus.active)) Error.authorization
        >> pure (user_of claims row) in
      let (row, found, h1) = or_raise-bind-eq-ok by_id Error.authentication next d h in
      let (active, h2) =
        raise_if-bind-eq-ok (not (eq_account row.account_status AccountStatus.active))
          Error.authorization (pure (user_of claims row)) d h1 in
      let (is_user, same) = pure-eq-ok h2 in
      (
        subst (λ u. IsActive u d) (sym is_user)
            (record {
              row = row;
              found = found;
              active = active-eq row.account_status active;
              is_superuser = refl;
            }),
        ap (λ x. x.employee_id) is_user,
        ap (λ x. x.organization_id) is_user,
        same,
      )

  pub get_current_user-eq-ok :
      (credentials : Option String) (d : Db) {user : CurrentUser} {d' : Db}
      → get_current_user jwt_decode credentials d ≡ (ok user, d')
      → IsActive user d
        × IsBearer jwt_decode credentials user.employee_id user.organization_id
        × (d' ≡ d)
  unfolding get_current_user
  get_current_user-eq-ok none d h = absurd (cc)
  get_current_user-eq-ok (some token) d {user} {d'} h =
      let (claims, d0, decoded, h1) =
        >>=-eq-ok (decode_access_token jwt_decode token) (active_user) d h in
      let (bearer, unchanged) = decode-eq-ok token d decoded in
      let (active, employee, org, same) =
        active_user-eq-ok claims d
          (subst (λ x. active_user claims x ≡ (ok user, d')) unchanged h1) in
      (active, rw (employee, org) bearer, same)

  -- The dependency of the platform's endpoints lets only an active super administrator through.
  pub require_superuser-eq-ok :
      (credentials : Option String) (d : Db) {user : CurrentUser} {d' : Db}
      → require_superuser jwt_decode credentials d ≡ (ok user, d')
      → IsActive user d × (user.is_superuser ≡ true) × (d' ≡ d)
  unfolding require_superuser
  require_superuser-eq-ok credentials d {user} {d'} h =
      let next : CurrentUser → Exec Db CurrentUser =
        λ user. raise_if (not user.is_superuser) Error.authorization >> pure user in
      let (u, d0, got, h1) = >>=-eq-ok (get_current_user jwt_decode credentials) next d h in
      let (active, bearer, same) = get_current_user-eq-ok credentials d got in
      let (super, h2) =
        raise_if-bind-eq-ok (not u.is_superuser) Error.authorization (pure u) d0 h1 in
      let (is_user, same') = pure-eq-ok h2 in
      (
        subst (λ x. IsActive x d) (sym is_user) active,
        rw is_user (ground (arith, super)),
        same' ∙ same,
      )
