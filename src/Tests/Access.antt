-- ===== src/Tests/Access.antt =====
-- The theorems on access to projects at the office.
use ats_onework.Prelude.{none, some, List, [], ◌∷◌, ◌≡◌, refl, inr, arith, find}
use ats_onework.Prelude.Text.{text_eq}
use ats_onework.Exec.{ok, transaction}
use ats_onework.Constants.{ProjectAccessStatus, project_access_transitions}
use ats_onework.Schema.{Db, ProjectAccessRequest}
use ats_onework.Audit.{log}
use ats_onework.Notifications
use ats_onework.Tenant.{require_admin, require_path_admin, require_path_member}
use ats_onework.ProjectRequests.Repository.{
  has_id, new_request, get_default_role_id, get_request_org, insert_member, update_status,
}
use ats_onework.ProjectRequests.Service.{
  approve, decide, decide_in, decide_row, grant_if, grant_membership, grant_new, record_decision,
}
use ats_onework.ProjectRequests.Decision.{Decided, decide-Decided}
use ats_onework.ProjectRequests.Sound.{IsSound}
use ats_onework.ProjectRequests.History.{
  Request, ask_access, approve_access, reject_access, run_access, run_access-IsSound,
  run_access-IsFinal,
}
use ats_onework.ProjectRequests.Approval.{approve-pending}
use ats_onework.Tests.Office.{office}

-- An employee asked for access to the project.
abbrev waiting : Db
waiting = record office {
  project_access_requests = record { rows = new_request 15 1 1 1 1 ∷ []; next_id = 2 };
}

abbrev turned_down : ProjectAccessRequest
turned_down = record (new_request 15 1 1 1 1) {
  status = ProjectAccessStatus.rejected;
  decided_by = some 2;
  decided_at = some 16;
}

abbrev closed : Db
closed = record office { project_access_requests = record { rows = turned_down ∷ []; next_id = 2 } }

waiting-IsSound : IsSound waiting
waiting-IsSound = record {
  distinct = (tt, tt);
  below = (omega arith, tt);
  one_pending = λ p e. ground arith;
  one_seat = λ p e. omega arith;
  checked = ((λ _. (refl, refl), λ other. absurd (other refl)), tt);
  honoured = (λ e. absurd (cc), tt);
}

closed-IsSound : IsSound closed
closed-IsSound = record {
  distinct = (tt, tt);
  below = (omega arith, tt);
  one_pending = λ p e. ground arith;
  one_seat = λ p e. omega arith;
  checked = ((λ e. absurd (cc), λ _. refl), tt);
  honoured = (λ e. absurd (cc), tt);
}

-- A second request, an approval, and a rejection that comes too late.
abbrev afternoon : List Request
afternoon =
    record { at = 21; actor = 1; call = ask_access 1 }
    ∷ record { at = 22; actor = 2; call = approve_access 1 none }
    ∷ record { at = 23; actor = 2; call = reject_access 1 (some "late") }
    ∷ []

run_access-IsSound_example : IsSound (run_access afternoon waiting)
run_access-IsSound_example = run_access-IsSound afternoon waiting waiting-IsSound

run_access-IsFinal_example :
    find (has_id 1) (run_access afternoon closed).project_access_requests.rows ≡ some turned_down
run_access-IsFinal_example =
    run_access-IsFinal afternoon closed 1 turned_down closed-IsSound (λ e. absurd (cc)) refl

approve-pending_example :
    (r : ProjectAccessRequest) × (d' : Db) × (approve 2 1 none waiting ≡ (ok r, d'))
    × Decided 2 1 ProjectAccessStatus.approved waiting d'
unfolding get_default_role_id text_eq
approve-pending_example =
    approve-pending 2 1 1 none waiting _ (new_request 15 1 1 1 1) (tt, tt) refl refl refl refl
      (inr (_, refl))

abbrev approved_state : Db
approved_state = (approve 2 1 none waiting).1

decide-Decided_example : Decided 2 1 ProjectAccessStatus.approved waiting approved_state
unfolding approve decide decide_in decide_row grant_if grant_membership grant_new record_decision
    transaction log Notifications.insert require_admin require_path_admin require_path_member
    get_default_role_id get_request_org insert_member update_status project_access_transitions
    text_eq
decide-Decided_example =
    decide-Decided 2 1 ProjectAccessStatus.approved none waiting approved_state _ (tt, tt) refl
