-- ===== src/Tests/Sessions.antt =====
-- The authentication theorems at the office.
use ats_onework.Prelude.{true, false, none, some, List, [], ◌∷◌, ◌≡◌, refl, arith, All, Memᴰ}
use ats_onework.Prelude.Text.{size, before_at}
use ats_onework.Audit.{log}
use ats_onework.Auth.Libraries.{is_weak}
use ats_onework.Exec.{Error, Result, ok, err}
use ats_onework.Constants.{AccountStatus}
use ats_onework.Schema.{Db, User}
use ats_onework.Auth.Connection.{request}
use ats_onework.Auth.Repository.{
  get_user_by_id, get_user_by_email, get_token, get_token_by_id, update_password_hash,
  revoke_refresh_tokens_for_employee, insert_token, update_last_login, list_memberships,
}
use ats_onework.Auth.Service.{
  refresh, change_password, store_password, login, issue_pair, store_refresh, TokenPair,
}
use ats_onework.Auth.Family.{Dead}
use ats_onework.Auth.Issued.{Issued}
use ats_onework.Auth.Password.{SignedOut, change_password_sound, login_sound}
use ats_onework.Auth.Replay.{refresh-replayed, refresh-revoked, run-Dead}
use ats_onework.Auth.Sessions.{AuthRequest, sign_in, refresh_pair, run}
use ats_onework.Tests.Office.{office, revoked_office, open_libraries, draw, token}

refresh-replayed_example :
    (d' : Db) × (request 30 (refresh open_libraries "r1" draw) office
      ≡ (err Error.authentication, d'))
    × Dead 7 d'
unfolding get_token get_token_by_id
refresh-replayed_example =
    refresh-replayed open_libraries "r1" 30 draw office (token 1 "r1" (some 2) none) refl 2 refl
      refl refl refl

revoked_office-Dead : Dead 7 revoked_office
revoked_office-Dead = ((λ _. refl), ((λ _. refl), ((λ _. refl), tt)))

refresh-revoked_example :
    request 30 (refresh open_libraries "r3" draw) revoked_office
    ≡ (err Error.authentication, record revoked_office { now = 30 })
unfolding get_token
refresh-revoked_example =
    refresh-revoked open_libraries "r3" 30 draw revoked_office (token 3 "r3" none (some 9)) refl
      revoked_office-Dead

abbrev attempts : List AuthRequest
attempts =
    record { at = 31; draw = draw; call = sign_in "a@x" "secret-1" }
    ∷ record { at = 32; draw = draw; call = refresh_pair "fresh" }
    ∷ []

run-Dead_example : Dead 7 (run open_libraries attempts revoked_office)
run-Dead_example =
    run-Dead open_libraries 7 attempts revoked_office (omega arith, (omega arith, tt))
      revoked_office-Dead

-- The database after a password change.
abbrev changed : Db
changed = (change_password open_libraries 1 "secret-1" "correct horse" office).1

changes : change_password open_libraries 1 "secret-1" "correct horse" office ≡ (ok tt, changed)
unfolding change_password store_password get_user_by_id is_weak update_password_hash
    revoke_refresh_tokens_for_employee log size before_at
changes = refl

change_password_sound_example :
    (u : User) × (get_user_by_id 1 office ≡ some u)
    × Memᴰ u office.users.rows
    × (u.employee_id ≡ 1)
    × ((open_libraries.verify_and_update_password "secret-1" u.password_hash).0 ≡ true)
    × All (SignedOut 1) changed.authentication_tokens.rows
change_password_sound_example =
    change_password_sound open_libraries 1 "secret-1" "correct horse" office changed changes

abbrev signed_in : Db
signed_in = (login open_libraries "a@x" "secret-1" draw office).1

abbrev pair_of : Result TokenPair → TokenPair → TokenPair
pair_of (ok p) q = p
pair_of (err e) q = q

abbrev first_pair : TokenPair
first_pair = pair_of (login open_libraries "a@x" "secret-1" draw office).0 (record {
  access_token = record { employee_id = 0; organization_id = 0; is_admin = false };
  refresh_token = "";
  organizations = [];
})

signs_in : login open_libraries "a@x" "secret-1" draw office ≡ (ok first_pair, signed_in)
unfolding login issue_pair store_refresh get_user_by_email insert_token update_last_login
    list_memberships
signs_in = refl

login_sound_example :
    (u : User) × Memᴰ u office.users.rows
    × (u.email ≡ "a@x")
    × ((open_libraries.verify_and_update_password "secret-1" u.password_hash).0 ≡ true)
    × (u.account_status ≡ AccountStatus.active)
    × Issued open_libraries u.employee_id draw office signed_in first_pair
login_sound_example =
    login_sound open_libraries "a@x" "secret-1" draw office signed_in first_pair signs_in
