-- ===== src/Tests/Statuses.antt =====
-- The theorem on the status log at the office.
use ats_onework.Prelude.{false, none, [], ◌∷◌, refl, arith}
use ats_onework.Constants.{EmployeeStatus}
use ats_onework.Schema.{Db}
use ats_onework.Users.Statuses.{get_active_status, new_entry}
use ats_onework.Users.Service.{create_status}
use ats_onework.Users.Switches.{SwitchedBy, create_status_switches}
use ats_onework.Tests.Office.{office, member}

-- The first employee has been active since the fifth second, and the second since the sixth.
abbrev staffed : Db
staffed = record office {
  employee_status = record {
    rows =
        new_entry 5 1 EmployeeStatus.active none 1
        ∷ new_entry 6 2 EmployeeStatus.active none 2
        ∷ [];
    next_id = 3;
  };
}

create_status_switches_example :
    SwitchedBy (create_status 2 1 1 EmployeeStatus.on_leave) 1 EmployeeStatus.on_leave staffed
unfolding get_active_status
create_status_switches_example =
    create_status_switches 2 1 1 EmployeeStatus.on_leave staffed (member 1 1 1 false) refl refl
      (λ h. omega arith, (λ h. omega arith, tt))
