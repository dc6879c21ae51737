-- ===== src/Users/Statuses.antt =====
-- users/repository.py over the tables: the queries of the status log.
use ats_onework.Prelude.{
  ℕ, Bool, true, false, Option, none, some, ◌&&◌, ◌==◌, leb, if◌then◌else◌, any, find, update,
  is_some,
}
use ats_onework.Exec.{Exec, Error, ok, err}
use ats_onework.Constants.{EmployeeStatus}
use ats_onework.Schema.{Db, StatusEntry, insert_row, set_rows}

abbrev pub is_missing : Option ℕ → Bool
is_missing none = true
is_missing (some t) = false

-- The condition of the partial index: an employee's record without an end.
abbrev pub is_open : ℕ → StatusEntry → Bool
is_open employee_id s = s.employee_id == employee_id && is_missing s.ended_at

unfoldable pub get_active_status : ℕ → Db → Option StatusEntry
get_active_status employee_id d = find (is_open employee_id) d.employee_status.rows

abbrev pub ended : ℕ → Option ℕ → StatusEntry → StatusEntry
ended now updated_by s = record s { ended_at = some now; updated_by = updated_by }

-- The row that RETURNING gives for the open record.
abbrev pub found_ended : (StatusEntry → StatusEntry) → Option StatusEntry → Option StatusEntry
found_ended closed none = none
found_ended closed (some s) = some (closed s)

-- Whether the UPDATE would write an end that is not after the start.
abbrev pub breaks_dates : ℕ → ℕ → StatusEntry → Bool
breaks_dates now employee_id s = is_open employee_id s && leb now s.started_at

unfoldable pub close_status : ℕ → Option ℕ → Exec Db (Option StatusEntry)
close_status employee_id updated_by d =
    let closed = ended d.now updated_by in
    let rows = update (is_open employee_id) closed d.employee_status.rows in
    if any (breaks_dates d.now employee_id) d.employee_status.rows
    then (err Error.validation, d)
    else (
      ok (found_ended closed (get_active_status employee_id d)),
      record d { employee_status = set_rows rows d.employee_status },
    )

abbrev pub new_entry : ℕ → ℕ → EmployeeStatus → Option ℕ → ℕ → StatusEntry
new_entry now employee_id status updated_by status_id = record {
  status_id = status_id;
  employee_id = employee_id;
  status = status;
  started_at = now;
  ended_at = none;
  updated_by = updated_by;
}

-- The partial index refuses a second open record.
unfoldable pub insert_status : ℕ → EmployeeStatus → Option ℕ → Exec Db StatusEntry
insert_status employee_id status updated_by d =
    let row = new_entry d.now employee_id status updated_by in
    if is_some (get_active_status employee_id d) then (err Error.conflict, d) else (
      ok (row d.employee_status.next_id),
      record d { employee_status = insert_row row d.employee_status },
    )
