-- ===== src/Auth/Password.antt =====
-- What a password change and a sign-in that return have checked, and what they have written.
use package.text.Mathlib.Text.{◌==◌ as str_eq}
use text.Mathlib.TextEquality.{eq_iff}
use ats_onework.Prelude.{
  ℕ, String, Bool, true, some, ◌==◌, ==-eq, find_sound, find-Mem, Memᴰ, List, [], ◌∷◌, ◌≡◌, refl,
  subst, ap, arith, not, is_some, update, All, Bool-cases, inl, inr,
}
use ats_onework.Exec.{Error, ok, ◌>>◌, raise_if}
use ats_onework.Exec.Inversion.{or_raise-bind-eq-ok, raise_if-bind-eq-ok}
use ats_onework.Constants.{AccountStatus, TokenPurpose, eq_purpose, eq_account}
use ats_onework.Schema.{Db, User, AuthenticationToken}
use ats_onework.Audit.{log}
use ats_onework.Auth.Libraries.{Libraries, Draw, is_weak}
use ats_onework.Auth.Repository.{
  get_user_by_id, get_user_by_email, update_password_hash, revoke_refresh_tokens_for_employee,
  unrevoked_refresh_of, revoke_at,
}
use ats_onework.Auth.Service.{change_password, store_password, login, TokenPair, rehash, issue_pair}
use ats_onework.Auth.Issued.{Issued, rehash-Issued}

-- A refresh token of the employee is revoked.
abbrev pub SignedOut : ℕ → AuthenticationToken → Type 0
SignedOut id t =
    t.employee_id ≡ id
    → eq_purpose t.purpose TokenPurpose.refresh ≡ true
    → is_some t.revoked_at ≡ true

SignedOut-All :
    (now id : ℕ) (rows : List AuthenticationToken)
    → All (SignedOut id) (update (unrevoked_refresh_of id) (revoke_at now) rows)
SignedOut-All now id [] = tt
SignedOut-All now id (x ∷ rows) =
    let rest = SignedOut-All now id rows in
    elim (Bool-cases (unrevoked_refresh_of id x)) [
      | inl e ↦ rw e (λ _ _. refl, rest)
      | inr e ↦ rw e (λ own kind. ground (arith, e, own, kind), rest)
    ]

module _ (lib : Libraries) where
  -- A password change that returns found the account of that employee with the right current
  -- password, and leaves every refresh token of the employee revoked.
  pub change_password_sound :
      (id : ℕ) (old new : String) (d d' : Db)
      → change_password lib id old new d ≡ (ok tt, d')
      → (u : User) × (get_user_by_id id d ≡ some u)
        × Memᴰ u d.users.rows
        × (u.employee_id ≡ id)
        × ((lib.verify_and_update_password old u.password_hash).0 ≡ true)
        × All (SignedOut id) d'.authentication_tokens.rows
  unfolding change_password store_password log update_password_hash get_user_by_id
      revoke_refresh_tokens_for_employee
  change_password_sound id old new d d' h =
      let (u, found, h1) = or_raise-bind-eq-ok (get_user_by_id id d) Error.not_found _ d h in
      let wrong = not (lib.verify_and_update_password old u.password_hash).0 in
      let (verified, h2) =
        raise_if-bind-eq-ok wrong Error.authentication
          (raise_if (str_eq old new) Error.validation
            >> (raise_if (is_weak lib new u.email) Error.validation >> store_password lib id new))
          d h1 in
      let (differs, h3) =
        raise_if-bind-eq-ok (str_eq old new) Error.validation
          (raise_if (is_weak lib new u.email) Error.validation >> store_password lib id new) d h2 in
      let (strong, h4) =
        raise_if-bind-eq-ok (is_weak lib new u.email) Error.validation (store_password lib id new) d
          h3 in
      let by_id : User → Bool = λ x. x.employee_id == id in
      (
        u,
        found,
        find-Mem by_id d.users.rows found,
        ==-eq u.employee_id id (find_sound by_id d.users.rows found),
        ground (arith, verified),
        subst (λ x. All (SignedOut id) x.authentication_tokens.rows) (ap (λ p. p.1) h4)
            (SignedOut-All d.now id d.authentication_tokens.rows),
      )

  -- A sign-in that returns found an active account of the table with that email in lower case and the
  -- right password. The access token names the account's employee, and an organization of which the
  -- employee is a member, as an administrator if the membership says so, or none; the refresh token is
  -- the one that was drawn; and exactly one token was added, the refresh token's hash, for the same
  -- employee, with the usual lifetime, neither revoked nor replaced.
  pub login_sound :
      (email password : String) (draw : Draw) (d d' : Db) (p : TokenPair)
      → login lib email password draw d ≡ (ok p, d')
      → (u : User) × Memᴰ u d.users.rows
        × (u.email ≡ lib.lower email)
        × ((lib.verify_and_update_password password u.password_hash).0 ≡ true)
        × (u.account_status ≡ AccountStatus.active)
        × Issued lib u.employee_id draw d d' p
  unfolding login get_user_by_email
  login_sound email password draw d d' p h =
      let (u, found, h1) =
        or_raise-bind-eq-ok (get_user_by_email lib email d) Error.authentication _ d h in
      let wrong = not (lib.verify_and_update_password password u.password_hash).0 in
      let inactive = not (eq_account u.account_status AccountStatus.active) in
      let tail =
        rehash u.employee_id (lib.verify_and_update_password password u.password_hash).1
        >> issue_pair lib u.employee_id true draw in
      let (verified, h2) =
        raise_if-bind-eq-ok wrong Error.authentication
          (raise_if inactive Error.authorization >> tail) d h1 in
      let (active, h3) = raise_if-bind-eq-ok inactive Error.authorization tail d h2 in
      let by_email : User → Bool = λ x. str_eq x.email (lib.lower email) in
      (
        u,
        find-Mem by_email d.users.rows found,
        (eq_iff u.email (lib.lower email)).0 (find_sound by_email d.users.rows found),
        ground (arith, verified),
        ground (arith, active),
        rehash-Issued lib u.employee_id draw
            (lib.verify_and_update_password password u.password_hash).1 d h3,
      )
