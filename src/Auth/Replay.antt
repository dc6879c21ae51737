-- ===== src/Auth/Replay.antt =====
-- Replayed refresh tokens, and the families that are revoked.
use ats_onework.Prelude.{
  ℕ, String, Bool, false, Option, none, some, List, [], ◌∷◌, ◌≡◌, ◌≢◌, refl, arith, is_some, ◌&&◌,
  not, All, All-find, Option-cases, Bool-cases, inl, inr, find,
}
use ats_onework.Exec.{Exec, Error, Result, ok, err, raise_if, ◌>>◌}
use ats_onework.Exec.Keeps.{Keeps, Keeps-guard, Keeps-then, keeps_rules}
use ats_onework.Constants.{TokenPurpose}
use ats_onework.Schema.{Db, AuthenticationToken}
use ats_onework.Auth.Libraries.{Libraries, Draw, is_expired}
use ats_onework.Auth.Connection.{Conn, on_current, lift_result, commit, finish, request}
use ats_onework.Auth.Repository.{get_token, get_token_by_id, revoke_family, delete_token}
use ats_onework.Auth.Service.{
  refresh, refresh_live, refresh_checked, refresh_found, refresh_replaced, drop_expired,
}
use ats_onework.Auth.Family.{
  Dead, RevokedIn, register-Dead, change_password-Dead, login-Dead, logout-Dead, switch-Dead,
  refresh_first-Dead, drop_expired-Dead, rotate-Dead, revoke_family-Dead, revoke_family-kills,
}
use ats_onework.Auth.Sessions.{
  AuthCall, register_user, change, sign_in, refresh_pair, sign_out, switch, AuthRequest, dispatch,
  serve, run,
}

-- The family is dead in what is durable, and in what the transaction sees.
abbrev DeadConn : ℕ → Conn → Type 0
DeadConn f c = Dead f c.committed × Dead f c.current

lift-Dead :
    {A : Type 0} (f : ℕ) (saved : Db) (r : Result A × Db)
    → Dead f saved
    → Dead f r.1
    → DeadConn f (lift_result saved r).1
lift-Dead f saved (o, d) old new = (old, new)

on_current-Dead :
    {A : Type 0} {f : ℕ} (m : Exec Db A) → Keeps (Dead f) m → Keeps (DeadConn f) (on_current m)
on_current-Dead {f} m h = record {
  at = λ c dead. lift-Dead f c.committed (m c.current) dead.0 (h.at c.current dead.1);
}

commit-Dead : {f : ℕ} → Keeps (DeadConn f) commit
commit-Dead = record { at = λ c dead. (dead.1, dead.1) }

refresh_replaced-Dead :
    {f : ℕ} (lib : Libraries) (stored : AuthenticationToken) (r : Option AuthenticationToken)
    (draw : Draw)
    → ((t : AuthenticationToken) → r ≡ some t → is_some t.revoked_at ≡ false → t.family_id ≢ f)
    → Keeps (DeadConn f) (refresh_replaced lib stored r draw)
unfolding refresh_replaced
refresh_replaced-Dead lib stored none draw other =
    search (keeps_rules, on_current-Dead, commit-Dead, revoke_family-Dead)
refresh_replaced-Dead lib stored (some t) draw other =
    elim (Bool-cases (not (is_some t.replaced_by_token_id) && not (is_some t.revoked_at))) [
      | inr e ↦ rw e (search (keeps_rules, on_current-Dead, commit-Dead, revoke_family-Dead))
      | inl e ↦ rw e (
          on_current-Dead _
            (rotate-Dead lib t.employee_id t false draw (other t refl (ground (arith, e)))))
    ]

-- A row of a dead family is revoked.
found-revoked :
    (f : ℕ) (d : Db) (p : AuthenticationToken → Bool) (t : AuthenticationToken)
    → Dead f d
    → find p d.authentication_tokens.rows ≡ some t
    → is_some t.revoked_at ≡ false
    → t.family_id ≢ f
found-revoked f d p t dead found live same =
    let revoked = All-find (RevokedIn f) p d.authentication_tokens.rows dead found same in
    absurd (cc (revoked, live))

refresh_live-Dead :
    {f : ℕ} (lib : Libraries) (hash : String) (stored : AuthenticationToken) (by : Option ℕ)
    (draw : Draw)
    → stored.family_id ≢ f
    → Keeps (DeadConn f) (refresh_live lib hash stored by draw)
unfolding refresh_live get_token_by_id
refresh_live-Dead lib hash stored none draw other =
    search (keeps_rules, on_current-Dead, refresh_first-Dead, other)
refresh_live-Dead {f} lib hash stored (some k) draw other = record {
  at = λ c dead.
      (refresh_replaced-Dead lib stored (get_token_by_id k c.current) draw
          (λ t found live. found-revoked f c.current _ t dead.1 found live)).at
        (record { committed = c.committed; current = c.current }) dead;
}

refresh_checked-Dead :
    {f : ℕ} (lib : Libraries) (hash : String) (stored : AuthenticationToken) (draw : Draw) (now : ℕ)
    → (is_some stored.revoked_at ≡ false → stored.family_id ≢ f)
    → Keeps (DeadConn f) (refresh_checked lib hash stored draw now)
unfolding refresh_checked
refresh_checked-Dead lib hash stored draw now other =
    let checks = drop_expired lib (is_expired now stored.expires_at) hash in
    Keeps-then (on_current checks)
      (raise_if (is_some stored.revoked_at) Error.authentication
        >> refresh_live lib hash stored stored.replaced_by_token_id draw)
      (on_current-Dead checks (drop_expired-Dead lib (is_expired now stored.expires_at) hash))
      (Keeps-guard (is_some stored.revoked_at) Error.authentication
        (refresh_live lib hash stored stored.replaced_by_token_id draw)
        (λ e. refresh_live-Dead lib hash stored stored.replaced_by_token_id draw (other e)))

refresh-Dead :
    {f : ℕ} (lib : Libraries) (token : String) (draw : Draw)
    → Keeps (DeadConn f) (refresh lib token draw)
unfolding refresh refresh_found get_token
refresh-Dead {f} lib token draw = record {
  at = λ c dead.
      let hash = lib.hash_token token in
      elim (Option-cases (get_token hash TokenPurpose.refresh c.current)) [
        | inl e ↦ rw e dead
        | inr (stored, e) ↦ rw e (
            (refresh_checked-Dead lib hash stored draw c.current.now
                (λ live. found-revoked f c.current _ stored dead.1 e live)).at
              (record { committed = c.committed; current = c.current }) dead)
      ];
}

-- A request whose draw is no `f`.
abbrev pub Fresh : ℕ → AuthRequest → Type 0
Fresh f r = r.draw.family_id ≢ f

dispatch-Dead :
    {f : ℕ} (lib : Libraries) (draw : Draw) (c : AuthCall)
    → draw.family_id ≢ f
    → Keeps (DeadConn f) (dispatch lib draw c)
unfolding dispatch
dispatch-Dead lib draw (register_user name email password) other =
    search (keeps_rules, on_current-Dead, register-Dead)
dispatch-Dead lib draw (change id old new) other =
    search (keeps_rules, on_current-Dead, change_password-Dead)
dispatch-Dead lib draw (sign_in email password) other =
    search (keeps_rules, on_current-Dead, login-Dead, other)
dispatch-Dead lib draw (refresh_pair token) other = search (keeps_rules, refresh-Dead)
dispatch-Dead lib draw (sign_out id token) other =
    search (keeps_rules, on_current-Dead, logout-Dead)
dispatch-Dead lib draw (switch id org) other =
    search (keeps_rules, on_current-Dead, switch-Dead, other)

finish-Dead : {A : Type 0} (f : ℕ) (r : Result A × Conn) → DeadConn f r.1 → Dead f (finish r).1
finish-Dead f (ok a, c) dead = dead.1
finish-Dead f (err e, c) dead = dead.0

serve-Dead :
    {f : ℕ} (lib : Libraries) (r : AuthRequest) (d : Db)
    → Fresh f r
    → Dead f d
    → Dead f (serve lib r d).1
unfolding serve request
serve-Dead {f} lib r d other dead =
    let start = record d { now = r.at } in
    finish-Dead f _ (
      (dispatch-Dead lib r.draw r.call other).at (record { committed = start; current = start })
        (dead, dead))

-- If every token of a family is revoked, then every token of it is revoked after any requests to the
-- authentication module, as long as none of them draws the family's number as a new one.
pub run-Dead :
    (lib : Libraries) (f : ℕ) (rs : List AuthRequest) (d : Db)
    → All (Fresh f) rs
    → Dead f d
    → Dead f (run lib rs d)
unfolding run
run-Dead lib f [] d fresh dead = dead
run-Dead lib f (r ∷ rest) d fresh dead =
    run-Dead lib f rest (serve lib r d).1 fresh.1 (serve-Dead lib r d fresh.0 dead)

-- The replacement of a rotated token can still be used.
abbrev pub is_usable : Option AuthenticationToken → Bool
is_usable none = false
is_usable (some t) = not (is_some t.replaced_by_token_id) && not (is_some t.revoked_at)

replaced-revokes :
    (lib : Libraries) (stored : AuthenticationToken) (r : Option AuthenticationToken) (draw : Draw)
    (c : Conn)
    → is_usable r ≡ false
    → (d : Db) × (finish (refresh_replaced lib stored r draw c) ≡ (err Error.authentication, d))
      × Dead stored.family_id d
unfolding refresh_replaced revoke_family
replaced-revokes lib stored none draw c spent = (
  (revoke_family stored.family_id c.current).1,
  refl,
  revoke_family-kills stored.family_id c.current,
)
replaced-revokes lib stored (some t) draw c spent = (
  (revoke_family stored.family_id c.current).1,
  rw spent refl,
  revoke_family-kills stored.family_id c.current,
)

module _ (lib : Libraries) (token : String) (at : ℕ) (draw : Draw) (d : Db)
    (stored : AuthenticationToken)
    (found : get_token (lib.hash_token token) TokenPurpose.refresh d ≡ some stored) where
  -- A refresh token that was rotated and whose replacement is missing, rotated or revoked is refused
  -- as unauthenticated if it is neither expired nor revoked, and the refusal commits the revocation of
  -- every token of its family.
  pub refresh-replayed :
      (k : ℕ)
      → is_expired at stored.expires_at ≡ false
      → stored.revoked_at ≡ none
      → stored.replaced_by_token_id ≡ some k
      → is_usable (get_token_by_id k d) ≡ false
      → (d' : Db) × (request at (refresh lib token draw) d ≡ (err Error.authentication, d'))
        × Dead stored.family_id d'
  unfolding request refresh refresh_found refresh_checked refresh_live get_token get_token_by_id
      replaced-revokes
  refresh-replayed k fresh live replaced spent =
      let start = record d { now = at } in
      let last =
        replaced-revokes lib stored (get_token_by_id k start) draw
          (record { committed = start; current = start }) spent in
      (last.0, rw (found, fresh, live, replaced) last.1, last.2)

  -- A stored refresh token of a family whose every token is revoked is refused as unauthenticated, and
  -- the request leaves the database as it is but for the clock.
  pub refresh-revoked :
      Dead stored.family_id d
      → request at (refresh lib token draw) d ≡ (err Error.authentication, record d { now = at })
  unfolding request refresh refresh_found refresh_checked get_token delete_token
  refresh-revoked dead =
      let revoked =
        All-find (RevokedIn stored.family_id) _ d.authentication_tokens.rows dead found refl in
      elim (Bool-cases (is_expired at stored.expires_at)) [
        | inl e ↦ rw (found, e) refl
        | inr e ↦ rw (found, e, revoked) refl
      ]
