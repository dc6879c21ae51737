-- ===== src/ProjectRequests/Step.antt =====
-- What one call may do to the tables of access requests and of project members.
use ats_onework.Prelude.{
  ℕ, String, true, Option, none, some, ◌≡◌, ◌≢◌, refl, inl, inr, find, update, is_some, Bool-cases,
  Option-cases,
}
use ats_onework.Exec.{ok}
use ats_onework.Constants.{ProjectAccessStatus}
use ats_onework.Schema.{Db, Table, ProjectAccessRequest, ProjectMember, insert_row, set_rows}
use ats_onework.Audit.{log}
use ats_onework.ProjectRequests.Repository.{
  has_id, has_key, is_pending_for, is_member_row, is_project_member, find_pending, new_request,
  new_member, decided, create,
}
use ats_onework.ProjectRequests.Service.{insert_request}

-- The employee of a request is on the roster of its project.
abbrev pub OnRoster : Table ProjectMember → ProjectAccessRequest → Type 0
OnRoster ms r = is_some (find (is_member_row r.project_id r.employee_id) ms.rows) ≡ true

-- The roster is left alone, or gets a member that it did not have.
pub data RosterStep (ms ms' : Table ProjectMember) : Type 0 where
  kept : ms' ≡ ms → RosterStep ms ms'
  joined :
      (project org employee role : ℕ)
      → find (is_member_row project employee) ms.rows ≡ none
      → ms' ≡ insert_row (new_member project org employee role) ms
      → RosterStep ms ms'

-- In organization `org`: nothing, a new request of an employee with none pending for the project, or
-- a decision on a pending request, which grants the membership if it approves.
pub data AccessStep (org : ℕ) (rs : Table ProjectAccessRequest) (ms : Table ProjectMember)
    (rs' : Table ProjectAccessRequest) (ms' : Table ProjectMember) : Type 0 where
  unchanged : rs' ≡ rs → ms' ≡ ms → AccessStep org rs ms rs' ms'
  asked :
      (now employee project : ℕ)
      → find (is_pending_for project employee) rs.rows ≡ none
      → rs' ≡ insert_row (new_request now employee project org) rs
      → ms' ≡ ms
      → AccessStep org rs ms rs' ms'
  settled :
      (id by now : ℕ) (comment : Option String) (row : ProjectAccessRequest)
      (status : ProjectAccessStatus)
      → find (has_key id org) rs.rows ≡ some row
      → row.status ≡ ProjectAccessStatus.pending
      → status ≢ ProjectAccessStatus.pending
      → RosterStep ms ms'
      → (status ≡ ProjectAccessStatus.approved → OnRoster ms' row)
      → rs' ≡ set_rows (update (has_id id) (decided status by comment now) rs.rows) rs
      → AccessStep org rs ms rs' ms'

-- A step from `d` to `d'`.
abbrev pub StepOf : ℕ → Db → Db → Type 0
StepOf org d d' =
    AccessStep org d.project_access_requests d.project_members d'.project_access_requests
      d'.project_members

create-fresh :
    (employee project org : ℕ) (d : Db)
    → find_pending project employee d ≡ none
    → create employee project org d ≡ (
      ok (new_request d.now employee project org d.project_access_requests.next_id),
      record d {
        project_access_requests =
            insert_row (new_request d.now employee project org) d.project_access_requests;
      },
    )
unfolding create
create-fresh employee project org d h = rw h refl

pub insert_request-Step :
    (employee project org : ℕ) (d : Db) → StepOf org d (insert_request employee project org d).1
unfolding insert_request log
insert_request-Step employee project org d =
    elim (Bool-cases (is_project_member project employee d)) [
      | inl member ↦ rw member (unchanged refl refl)
      | inr free ↦ elim (Option-cases (find_pending project employee d)) [
        | inr (r, found) ↦ rw (free, found) (unchanged refl refl)
        | inl fresh ↦
            rw (free, fresh, create-fresh employee project org d fresh)
              (asked d.now employee project fresh refl refl)
      ]
    ]
