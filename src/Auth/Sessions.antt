-- ===== src/Auth/Sessions.antt =====
-- The requests of auth/router.py, one after another: the service methods that they call, each on a
-- connection of its own. The rate limits in front of them are left out.
use ats_onework.Prelude.{ℕ, String, List, [], ◌∷◌}
use ats_onework.Exec.{Exec, pure, Result, ◌>>=◌}
use ats_onework.Schema.{Db}
use ats_onework.Auth.Libraries.{Libraries, Draw}
use ats_onework.Auth.Connection.{Conn, on_current, request}
use ats_onework.Auth.Service.{
  register, change_password, login, refresh, logout, switch_organization,
}

pub data AuthCall : Type 0 where
  register_user : (name email password : String) → AuthCall
  change : (employee_id : ℕ) (current_password new_password : String) → AuthCall
  sign_in : (email password : String) → AuthCall
  refresh_pair : (refresh_token : String) → AuthCall
  sign_out : (employee_id : ℕ) (refresh_token : String) → AuthCall
  switch : (employee_id organization_id : ℕ) → AuthCall

abbrev pub drop : {A : Type 0} → Exec Conn A → Exec Conn (Unit {0})
drop m = m >>= λ _. pure tt

unfoldable pub dispatch : Libraries → Draw → AuthCall → Exec Conn (Unit {0})
dispatch lib draw (register_user name email password) =
    drop (on_current (register lib name email password))
dispatch lib draw (change id old new) = on_current (change_password lib id old new)
dispatch lib draw (sign_in email password) = drop (on_current (login lib email password draw))
dispatch lib draw (refresh_pair token) = drop (refresh lib token draw)
dispatch lib draw (sign_out id token) = on_current (logout lib id token)
dispatch lib draw (switch id org) = drop (on_current (switch_organization lib id org draw))

pub record AuthRequest : Type 0 where
  pub at : ℕ
  pub draw : Draw
  pub call : AuthCall

unfoldable pub serve : Libraries → AuthRequest → Db → Result (Unit {0}) × Db
serve lib r = request r.at (dispatch lib r.draw r.call)

unfoldable pub run : Libraries → List AuthRequest → Db → Db
run lib [] d = d
run lib (r ∷ rest) d = run lib rest (serve lib r d).1
