-- ===== src/Users/Service.antt =====
-- users/service.py: `create_status` and the check of the tenant.
use ats_onework.Prelude.{ℕ, Bool, true, false, Option, none, some, [], ◌∷◌}
use ats_onework.Exec.{Exec, Error, pure, gets, or_raise, raise_if, ◌>>=◌, ◌>>◌}
use ats_onework.Constants.{EmployeeStatus, eq_employee, employee_text}
use ats_onework.Schema.{Db, Membership, StatusEntry, lit, num, text, number, flag}
use ats_onework.Tenant.{get_membership}
use ats_onework.Audit.{Values, log}
use ats_onework.Users.Statuses.{get_active_status, close_status, insert_status}

-- `_require_org_member`
unfoldable pub require_org_member : ℕ → ℕ → Exec Db Membership
require_org_member employee_id organization_id = do
  row ← gets (λ d. get_membership employee_id organization_id d.memberships.rows)
  or_raise row Error.not_found

abbrev pub in_status : EmployeeStatus → Option StatusEntry → Bool
in_status status none = false
in_status status (some row) = eq_employee row.status status

unfoldable pub close_open : ℕ → ℕ → Option StatusEntry → Exec Db (Option StatusEntry)
close_open actor_id employee_id none = pure none
close_open actor_id employee_id (some row) = close_status employee_id (some actor_id)

abbrev pub closed_values : Option StatusEntry → Option Values
closed_values none = none
closed_values (some row) = some (
    ("status_id", number row.status_id)
    ∷ ("status", text (lit (employee_text row.status) ∷ []))
    ∷ ("auto_closed", flag true)
    ∷ [])

-- What `create_status` does once the open record, if any, is closed.
unfoldable pub open_status : ℕ → ℕ → ℕ → EmployeeStatus → Option StatusEntry → Exec Db StatusEntry
open_status actor_id organization_id employee_id status closed = do
  row ← insert_status employee_id status (some actor_id)
  log (some actor_id) (some organization_id) (lit "user.status.create" ∷ []) "employee_status"
      (num row.status_id) (closed_values closed)
      (some (
        ("employee_id", number employee_id)
        ∷ ("status", text (lit (employee_text row.status) ∷ []))
        ∷ []))
  pure row

unfoldable pub create_status : ℕ → ℕ → ℕ → EmployeeStatus → Exec Db StatusEntry
create_status actor_id organization_id employee_id status = do
  require_org_member employee_id organization_id
  active ← gets (get_active_status employee_id)
  raise_if (in_status status active) Error.conflict
  closed ← close_open actor_id employee_id active
  open_status actor_id organization_id employee_id status closed
