-- ===== src/Auth/Family.antt =====
-- Families of refresh tokens: which are revoked, and what each method does to a revoked one.
use ats_onework.Prelude.{
  ℕ, String, Bool, true, false, Option, none, some, List, [], ◌∷◌, ◌≡◌, ◌≢◌, refl, arith, find,
  update, delete, is_some, All, All-update, All-append_one, All-delete, Bool-cases, ◌==◌, inl, inr,
}
use ats_onework.Exec.{Exec}
use ats_onework.Exec.Frame.{Leaves}
use ats_onework.Exec.Keeps.{Keeps, Keeps-part, keeps_rules}
use ats_onework.Constants.{TokenPurpose}
use ats_onework.Schema.{Piece, Db, User, Table, AuthenticationToken, Message}
use ats_onework.Audit.{Values, log}
use ats_onework.Auth.Libraries.{Libraries, Draw}
use ats_onework.Auth.Repository.{
  create_user, update_password_hash, update_last_login, insert_token, mark_rotated, revoke_family,
  revoke_refresh_tokens_for_employee, delete_token, has_token_id, replace_by, unrevoked_in,
  unrevoked_refresh_of, revoke_at, family_or, has_hash, points_at, forget_token,
}
use ats_onework.Auth.Service.{
  register, change_password, store_password, login, logout, switch_organization, rotate,
  store_refresh, issue_pair, refresh_first, touch, rehash, revoke_own, drop_expired,
}

-- A token of family `f` is revoked.
abbrev pub RevokedIn : ℕ → AuthenticationToken → Type 0
RevokedIn f t = t.family_id ≡ f → is_some t.revoked_at ≡ true

-- Every token of the family is revoked.
abbrev pub Dead : ℕ → Db → Type 0
Dead f d = All (RevokedIn f) d.authentication_tokens.rows

abbrev tokens : Db → Table AuthenticationToken
tokens d = d.authentication_tokens

log-tokens :
    (a o : Option ℕ) (action : Message) (t : String) (id : Piece) (old new : Option Values)
    → Leaves tokens (log a o action t id old new)
unfolding log
log-tokens a o action t id old new = record { at = λ d. refl }

forget-Dead :
    (f : ℕ) (gone : Option AuthenticationToken) (rows : List AuthenticationToken)
    → All (RevokedIn f) rows
    → All (RevokedIn f) (forget_token gone rows)
forget-Dead f none rows h = h
forget-Dead f (some gone) rows h =
    All-update (RevokedIn f) (RevokedIn f) (λ t. points_at gone.token_id t.replaced_by_token_id)
      (replace_by none) rows (λ x all _ same. all same) (λ x all. all) h

module _ {f : ℕ} where
  untouched : {A : Type 0} (m : Exec Db A) → Leaves tokens m → Keeps (Dead f) m
  untouched m = Keeps-part tokens (λ t. All (RevokedIn f) t.rows) m

  log-Dead :
      (a o : Option ℕ) (action : Message) (t : String) (id : Piece) (old new : Option Values)
      → Keeps (Dead f) (log a o action t id old new)
  log-Dead a o action t id old new =
      untouched (log a o action t id old new) (log-tokens a o action t id old new)

  create_user-Dead :
      (lib : Libraries) (name email hash : String)
      → Keeps (Dead f) (create_user lib name email hash)
  unfolding create_user
  create_user-Dead lib name email hash =
      untouched (create_user lib name email hash) (record { at = λ d. ground arith })

  update_password_hash-Dead :
      (id : ℕ) (hash : String) → Keeps (Dead f) (update_password_hash id hash)
  unfolding update_password_hash
  update_password_hash-Dead id hash = record { at = λ d h. h }

  update_last_login-Dead : (id at : ℕ) → Keeps (Dead f) (update_last_login id at)
  unfolding update_last_login
  update_last_login-Dead id t = record { at = λ d h. h }

  mark_rotated-Dead : (id by : ℕ) → Keeps (Dead f) (mark_rotated id by)
  unfolding mark_rotated
  mark_rotated-Dead id by = record {
    at = λ d h.
        All-update (RevokedIn f) (RevokedIn f) (has_token_id id) (replace_by (some by))
          d.authentication_tokens.rows (λ x all _ same. all same) (λ x all. all) h;
  }

  pub revoke_family-Dead : (g : ℕ) → Keeps (Dead f) (revoke_family g)
  unfolding revoke_family
  revoke_family-Dead g = record {
    at = λ d h.
        All-update (RevokedIn f) (RevokedIn f) (unrevoked_in g) (revoke_at d.now)
          d.authentication_tokens.rows (λ x all _ same. refl) (λ x all. all) h;
  }

  revoke_employee-Dead : (id : ℕ) → Keeps (Dead f) (revoke_refresh_tokens_for_employee id)
  unfolding revoke_refresh_tokens_for_employee
  revoke_employee-Dead id = record {
    at = λ d h.
        All-update (RevokedIn f) (RevokedIn f) (unrevoked_refresh_of id) (revoke_at d.now)
          d.authentication_tokens.rows (λ x all _ same. refl) (λ x all. all) h;
  }

  -- A token goes to another family, or to a new one.
  insert_token-Dead :
      (id : ℕ) (hash : String) (p : TokenPurpose) (expiry : ℕ) (family : Option ℕ) (drawn : ℕ)
      → family_or family drawn ≢ f
      → Keeps (Dead f) (insert_token id hash p expiry family drawn)
  unfolding insert_token
  insert_token-Dead id hash p expiry family drawn other = record {
    at = λ d h. elim (Bool-cases (is_some (find (has_hash hash) d.authentication_tokens.rows))) [
      | inl e ↦ rw e h
      | inr e ↦ rw e (
          All-append_one (RevokedIn f) d.authentication_tokens.rows _ h
            (λ same. absurd (other same)))
    ];
  }

  delete_token-Dead : (hash : String) → Keeps (Dead f) (delete_token hash)
  unfolding delete_token
  delete_token-Dead hash = record {
    at = λ d h.
        let rows = d.authentication_tokens.rows in
        forget-Dead f (find (has_hash hash) rows) (delete (has_hash hash) rows)
          (All-delete (RevokedIn f) (has_hash hash) rows h);
  }

  store_refresh-Dead :
      (lib : Libraries) (id : ℕ) (draw : Draw) (family : Option ℕ)
      → family_or family draw.family_id ≢ f
      → Keeps (Dead f) (store_refresh lib id draw family)
  unfolding store_refresh
  store_refresh-Dead lib id draw family other = search (keeps_rules, insert_token-Dead, other)

  pub touch-Dead : (c : Bool) (id : ℕ) → Keeps (Dead f) (touch c id)
  touch-Dead true id = search (keeps_rules, update_last_login-Dead)
  touch-Dead false id = search keeps_rules

  pub rotate-Dead :
      (lib : Libraries) (id : ℕ) (previous : AuthenticationToken) (touched : Bool) (draw : Draw)
      → previous.family_id ≢ f
      → Keeps (Dead f) (rotate lib id previous touched draw)
  unfolding rotate
  rotate-Dead lib id previous touched draw other =
      search (keeps_rules, store_refresh-Dead, mark_rotated-Dead, touch-Dead, other)

  issue_pair-Dead :
      (lib : Libraries) (id : ℕ) (touched : Bool) (draw : Draw)
      → draw.family_id ≢ f
      → Keeps (Dead f) (issue_pair lib id touched draw)
  unfolding issue_pair
  issue_pair-Dead lib id touched draw other =
      search (keeps_rules, store_refresh-Dead, touch-Dead, other)

  rehash-Dead : (id : ℕ) (h : Option String) → Keeps (Dead f) (rehash id h)
  rehash-Dead id none = search keeps_rules
  rehash-Dead id (some h) = update_password_hash-Dead id h

  revoke_own-Dead :
      (lib : Libraries) (id : ℕ) (t : Option AuthenticationToken)
      → Keeps (Dead f) (revoke_own lib id t)
  revoke_own-Dead lib id none = search keeps_rules
  revoke_own-Dead lib id (some t) = elim (Bool-cases (t.employee_id == id)) [
    | inl e ↦ rw e (revoke_family-Dead t.family_id)
    | inr e ↦ rw e (search keeps_rules)
  ]

-- The methods whose statements all stand in one transaction.
module _ {f : ℕ} (lib : Libraries) where
  pub register-Dead :
      (name email password : String) → Keeps (Dead f) (register lib name email password)
  unfolding register
  register-Dead name email password =
      search (keeps_rules, create_user-Dead, log-Dead) depth 16 fits 4000

  store_password-Dead : (id : ℕ) (new : String) → Keeps (Dead f) (store_password lib id new)
  unfolding store_password
  store_password-Dead id new =
      search (keeps_rules, update_password_hash-Dead, revoke_employee-Dead, log-Dead) depth 12

  pub change_password-Dead :
      (id : ℕ) (old new : String) → Keeps (Dead f) (change_password lib id old new)
  unfolding change_password
  change_password-Dead id old new =
      search (keeps_rules, update_password_hash-Dead, revoke_employee-Dead, log-Dead) depth 16 fits
        4000

  pub login-Dead :
      (email password : String) (draw : Draw)
      → draw.family_id ≢ f
      → Keeps (Dead f) (login lib email password draw)
  unfolding login
  login-Dead email password draw other =
      search (keeps_rules, rehash-Dead, issue_pair-Dead, other) depth 16 fits 4000

  pub logout-Dead : (id : ℕ) (token : String) → Keeps (Dead f) (logout lib id token)
  unfolding logout
  logout-Dead id token = search (keeps_rules, revoke_own-Dead)

  pub switch-Dead :
      (id org : ℕ) (draw : Draw)
      → draw.family_id ≢ f
      → Keeps (Dead f) (switch_organization lib id org draw)
  unfolding switch_organization
  switch-Dead id org draw other =
      search (keeps_rules, revoke_employee-Dead, store_refresh-Dead, other) depth 16 fits 4000

  pub refresh_first-Dead :
      (hash : String) (stored : AuthenticationToken) (user : Option User) (draw : Draw)
      → stored.family_id ≢ f
      → Keeps (Dead f) (refresh_first lib hash stored user draw)
  unfolding refresh_first
  refresh_first-Dead hash stored none draw other = search (keeps_rules, delete_token-Dead)
  refresh_first-Dead hash stored (some user) draw other = search (keeps_rules, rotate-Dead, other)

  pub drop_expired-Dead : (c : Bool) (hash : String) → Keeps (Dead f) (drop_expired lib c hash)
  drop_expired-Dead true hash = search (keeps_rules, delete_token-Dead)
  drop_expired-Dead false hash = search keeps_rules

revoked-All :
    (now f : ℕ) (rows : List AuthenticationToken)
    → All (RevokedIn f) (update (unrevoked_in f) (revoke_at now) rows)
revoked-All now f [] = tt
revoked-All now f (x ∷ rows) =
    let rest = revoked-All now f rows in
    elim (Bool-cases (unrevoked_in f x)) [
      | inl e ↦ rw e (λ _. refl, rest)
      | inr e ↦ rw e (λ same. ground (arith, e, same), rest)
    ]

-- `revoke_family` leaves no token of its family.
pub revoke_family-kills : (f : ℕ) (d : Db) → Dead f (revoke_family f d).1
unfolding revoke_family
revoke_family-kills f d = revoked-All d.now f d.authentication_tokens.rows
