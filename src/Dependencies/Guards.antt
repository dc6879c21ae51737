-- ===== src/Dependencies/Guards.antt =====
-- What the dependencies of a request have checked.
use ats_onework.Prelude.{
  String, true, Option, none, some, List, ◌≡◌, refl, sym, ap, subst, ◌∙◌, ◌&&◌, ◌==◌, not, any,
  any-Mem, Memᴰ, find, arith,
}
use mathlib.Core.Option.{some-injective}
use ats_onework.Exec.{Exec, Error, ok, pure, raise_if, ◌>>=◌, ◌>>◌}
use ats_onework.Exec.Inversion.{pure-eq-ok, >>=-eq-ok, or_raise-bind-eq-ok, raise_if-bind-eq-ok}
use ats_onework.Constants.{AccountStatus, eq_account}
use ats_onework.Schema.{Db, User, Membership}
use ats_onework.Permissions.{has_permission}
use ats_onework.Permissions.Holds.{Holds, has_permission-Holds}
use ats_onework.Dependencies.Bearer.{IsActive, IsBearer, active-eq, get_current_user-eq-ok}
use ats_onework.Dependencies.{
  Payload, CurrentUser, get_current_user, joined, with_membership, require_membership, holding_any,
  require_any_permission,
}

-- What a request of a member who holds one of the capabilities has shown.
pub record Authorized (api_names : List String) (user : CurrentUser) (d : Db) : Type 0 where
  pub row : User
  pub found : find (λ u. u.employee_id == user.employee_id) d.users.rows ≡ some row
  pub active : row.account_status ≡ AccountStatus.active
  pub membership : Membership
  pub is_member :
      find
        (λ m. m.employee_id == user.employee_id && m.organization_id == user.organization_id)
        d.memberships.rows
      ≡ some membership
  pub is_admin : user.is_admin ≡ membership.is_admin
  pub is_superuser : user.is_superuser ≡ row.is_superuser
  pub capability : String
  pub is_asked : Memᴰ capability api_names
  pub holds : Holds user.employee_id user.organization_id capability d

some_eq : {x y : User} → some x ≡ some y → x ≡ y
some_eq {x} {y} h = some-injective x y h

joined-some :
    (u : Option User) (m : Option Membership) {r : Membership × User}
    → joined u m ≡ some r
    → (u ≡ some r.1) × (m ≡ some r.0)
joined-some none m h = absurd (cc)
joined-some (some u) none h = absurd (cc)
joined-some (some u) (some m) h = (cc, cc)

module _ (api_names : List String) (d : Db) where
  abbrev Shown : (String → Option Payload) → Option String → CurrentUser → Type 0
  Shown jwt_decode credentials user =
      Authorized api_names user d
      × IsBearer jwt_decode credentials user.employee_id user.organization_id

  authorized :
      (jwt_decode : String → Option Payload) (credentials : Option String) (user : CurrentUser)
      {u : CurrentUser} {d' : Db}
      → IsActive user d
      → IsBearer jwt_decode credentials user.employee_id user.organization_id
      → (with_membership user >>= holding_any api_names) d ≡ (ok u, d')
      → Shown jwt_decode credentials u × (d' ≡ d)
  unfolding with_membership holding_any
  authorized jwt_decode credentials user {u} {d'} account bearer h =
      let by_id = find (λ x. x.employee_id == user.employee_id) d.users.rows in
      let own =
        find (λ m. m.employee_id == user.employee_id && m.organization_id == user.organization_id)
          d.memberships.rows in
      let check : Membership × User → Exec Db CurrentUser = λ row.
        raise_if (not (eq_account row.1.account_status AccountStatus.active)) Error.authorization
        >> pure (record user { is_admin = row.0.is_admin }) in
      let (v, d0, got, h1) = >>=-eq-ok (with_membership user) (holding_any api_names) d h in
      let (row, located, h2) =
        or_raise-bind-eq-ok (joined by_id own) Error.authorization check d got in
      let (active, h3) =
        raise_if-bind-eq-ok (not (eq_account row.1.account_status AccountStatus.active))
          Error.authorization (pure (record user { is_admin = row.0.is_admin })) d h2 in
      let (is_v, same) = pure-eq-ok h3 in
      let h4 : holding_any api_names v d ≡ (ok u, d') =
        subst (λ x. holding_any api_names v x ≡ (ok u, d')) same h1 in
      let (holds, h5) =
        raise_if-bind-eq-ok
          (not (any (λ n. has_permission v.employee_id v.organization_id n d) api_names))
          Error.authorization (pure v) d h4 in
      let (is_u, same') = pure-eq-ok h5 in
      let (u_found, m_found) = joined-some by_id own located in
      let same_row : row.1 ≡ account.row = some_eq (sym u_found ∙ account.found) in
      let who : Shown jwt_decode credentials v =
        subst
          (λ x.
            any (λ n. has_permission x.employee_id x.organization_id n d) api_names ≡ true
            → Shown jwt_decode credentials x)
          (sym is_v)
          (λ can.
            let (n, (asked, held)) =
              any-Mem (λ n. has_permission user.employee_id user.organization_id n d) api_names
                can in
            (
              record {
                row = row.1;
                found = u_found;
                active = active-eq row.1.account_status active;
                membership = row.0;
                is_member = m_found;
                is_admin = refl;
                is_superuser = account.is_superuser ∙ ap (λ x. x.is_superuser) (sym same_row);
                capability = n;
                is_asked = asked;
                holds = has_permission-Holds user.employee_id user.organization_id n d held;
              },
              bearer,
            ))
          (ground (arith, holds)) in
      (subst (λ x. Shown jwt_decode credentials x) (sym is_u) who, same')

  -- A request that `RequireAnyPermission` lets through carries an access token, and acts for the user
  -- and the organization that the token's claims name; the user's account is active and a member of
  -- the organization, and holds one of the capabilities there, by a role or directly; whether it acts
  -- as an administrator is what the membership says, and as a super administrator what the account
  -- says, not the token; and nothing was changed.
  pub require_any_permission_sound :
      (jwt_decode : String → Option Payload) (credentials : Option String) (user : CurrentUser)
      (d' : Db)
      → require_any_permission jwt_decode api_names credentials d ≡ (ok user, d')
      → Authorized api_names user d
        × IsBearer jwt_decode credentials user.employee_id user.organization_id
        × (d' ≡ d)
  unfolding require_any_permission require_membership
  require_any_permission_sound jwt_decode credentials user d' h =
      let first = get_current_user jwt_decode credentials in
      let (v, d1, member, h1) = >>=-eq-ok (first >>= with_membership) (holding_any api_names) d h in
      let (v0, d0, got, h2) = >>=-eq-ok first with_membership d member in
      let (active, bearer, same) = get_current_user-eq-ok jwt_decode credentials d got in
      let h3 : with_membership v0 d ≡ (ok v, d1) =
        subst (λ x. with_membership v0 x ≡ (ok v, d1)) same h2 in
      let both : (with_membership v0 >>= holding_any api_names) d ≡ (ok user, d') = rw h3 h1 in
      let ((who, carried), unchanged) = authorized jwt_decode credentials v0 active bearer both in
      (who, carried, unchanged)
