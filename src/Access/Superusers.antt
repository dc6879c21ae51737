-- ===== src/Access/Superusers.antt =====
-- Requests that grant and revoke the rights of super administrators (access/router.py), each in one
-- transaction (db/connection.py: `get_connection`).
use ats_onework.Prelude.{
  ℕ, String, Bool, true, false, Option, none, some, List, [], ◌∷◌, ◌≡◌, refl, sym, ap, subst, ◌∙◌,
  ◌&&◌, ◌==◌, not, any, any-find, any-select, find, find_sound, select, find-update-some,
  if◌then◌else◌, arith,
}
use ats_onework.Exec.{Exec, Error, Result, ok, pure, or_raise, transaction, ◌>>=◌, ◌>>◌}
use ats_onework.Exec.Inversion.{
  pure-eq-ok, >>=-eq-ok, or_raise-bind-eq-ok, raise_if-bind-eq-ok, transaction_cases,
}
use ats_onework.Schema.{Db, User, lit, num, flag}
use ats_onework.Audit.{log}
use ats_onework.Dependencies.{Payload, CurrentUser, require_superuser}
use ats_onework.Dependencies.Bearer.{require_superuser-eq-ok}
use ats_onework.Access.Grants.{any-order_by}
use ats_onework.Access.Repository.{set_superuser, list_superusers, with_superuser}
use ats_onework.Access.Platform.{drops_own, change_superuser}

pub record Request : Type 0 where
  pub at : ℕ
  pub credentials : Option String
  pub employee_id : ℕ
  pub is_superuser : Bool

-- Somebody can administer the platform.
abbrev pub IsAdministered : Db → Type 0
IsAdministered d = any (λ (u : User). u.is_superuser) d.users.rows ≡ true

module _ (jwt_decode : String → Option Payload) where
  unfoldable pub serve : Request → Db → Result User × Db
  serve r d =
      transaction
        (do
          user ← require_superuser jwt_decode r.credentials
          change_superuser user.employee_id r.employee_id r.is_superuser)
        (record d { now = r.at })

  unfoldable pub run_platform : List Request → Db → Db
  run_platform [] d = d
  run_platform (r ∷ rest) d = run_platform rest (serve r d).1

-- An administrator is in the list of them.
listed-own :
    (actor : ℕ) (d : Db) (row : User)
    → find (λ u. u.employee_id == actor) d.users.rows ≡ some row
    → row.is_superuser ≡ true
    → any (λ (u : User). u.employee_id == actor) (list_superusers d) ≡ true
unfolding list_superusers
listed-own actor d row found super =
    let own : (row.employee_id == actor) ≡ true =
      find_sound (λ u. u.employee_id == actor) d.users.rows found in
    any-order_by (λ u. u.employee_id == actor) _ (select (λ u. u.is_superuser) d.users.rows)
    ∙ any-select (λ u. u.employee_id == actor) (λ u. u.is_superuser) d.users.rows
    ∙ any-find (λ u. u.employee_id == actor) (λ u. u.is_superuser && u.employee_id == actor)
        d.users.rows found (rw (super, own) refl)

-- The actor's row keeps its flag.
kept-flag :
    (actor employee : ℕ) (b : Bool) (row : User)
    → (row.employee_id == actor) ≡ true
    → row.is_superuser ≡ true
    → (not b && employee == actor) ≡ false
    → (if row.employee_id == employee then with_superuser b row else row).is_superuser ≡ true
kept-flag actor employee b row own super keeps = ground arith

-- Only those who keep their own rights can change rights.
set-own :
    (actor employee : ℕ) (b : Bool) (d : Db) (row : User)
    → find (λ u. u.employee_id == actor) d.users.rows ≡ some row
    → row.is_superuser ≡ true
    → drops_own actor employee b (list_superusers d) ≡ false
    → IsAdministered (set_superuser employee b d).1
unfolding set_superuser
set-own actor employee b d row found super keeps =
    let own = find_sound (λ u. u.employee_id == actor) d.users.rows found in
    let listed = listed-own actor d row found super in
    let other : (not b && employee == actor) ≡ false = ground (arith, listed, keeps) in
    let after =
      find-update-some (λ u. u.employee_id == actor) (λ u. u.employee_id == employee)
        (with_superuser b) d.users.rows (λ u. refl) found in
    any-find (λ u. u.employee_id == actor) (λ u. u.is_superuser) _ after
      (kept-flag actor employee b row own super other)

change-IsAdministered :
    (actor employee : ℕ) (b : Bool) (d : Db) (row : User) {u : User} {d' : Db}
    → find (λ u. u.employee_id == actor) d.users.rows ≡ some row
    → row.is_superuser ≡ true
    → change_superuser actor employee b d ≡ (ok u, d')
    → IsAdministered d'
unfolding change_superuser log
change-IsAdministered actor employee b d row {u} {d'} found super h =
    let note : User → Exec Db User = λ row.
      log (some actor) none (lit "access.superuser.update" ∷ []) "users" (num employee) none
        (some (("is_superuser", flag b) ∷ []))
      >> pure row in
    let tail : Exec Db User =
      set_superuser employee b >>= λ f. or_raise f Error.not_found >>= note in
    let (keeps, h1) =
      raise_if-bind-eq-ok (drops_own actor employee b (list_superusers d)) Error.conflict tail d
        h in
    let (f, d1, wrote, h2) =
      >>=-eq-ok (set_superuser employee b) (λ f. or_raise f Error.not_found >>= note) d h1 in
    let (r, some_row, h3) = or_raise-bind-eq-ok f Error.not_found note d1 h2 in
    let (_, done) = pure-eq-ok h3 in
    let before : IsAdministered d1 =
      subst IsAdministered (ap (λ x. x.1) wrote)
        (set-own actor employee b d row found super keeps) in
    rw done before

module _ (jwt_decode : String → Option Payload) where
  serve-IsAdministered :
      (r : Request) (d : Db) → IsAdministered d → IsAdministered (serve jwt_decode r d).1
  unfolding serve
  serve-IsAdministered r d h =
      let start : Db = record d { now = r.at } in
      let change : CurrentUser → Exec Db User =
        λ user. change_superuser user.employee_id r.employee_id r.is_superuser in
      transaction_cases IsAdministered (require_superuser jwt_decode r.credentials >>= change) start
        h
        (λ a d' returned.
          let (user, d0, guarded, h1) =
            >>=-eq-ok (require_superuser jwt_decode r.credentials) change start returned in
          let (active, super, same) =
            require_superuser-eq-ok jwt_decode r.credentials start guarded in
          change-IsAdministered user.employee_id r.employee_id r.is_superuser start active.row
            active.found (sym active.is_superuser ∙ super)
            (subst (λ x. change user x ≡ (ok a, d')) same h1))

  -- If the platform has a super administrator, it has one after any sequence of requests that grant
  -- and revoke these rights, whoever makes them.
  pub run_platform-IsAdministered :
      (rs : List Request) (d : Db)
      → IsAdministered d
      → IsAdministered (run_platform jwt_decode rs d)
  unfolding run_platform
  run_platform-IsAdministered [] d h = h
  run_platform-IsAdministered (r ∷ rest) d h =
      run_platform-IsAdministered rest (serve jwt_decode r d).1 (serve-IsAdministered r d h)
