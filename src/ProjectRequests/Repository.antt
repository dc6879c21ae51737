-- ===== src/ProjectRequests/Repository.antt =====
-- project_requests/repository.py over the tables, with the constraints of
-- backend/migrations/0002_project_access_requests.sql and UNIQUE (project_id, employee_id) of
-- `project_members`.
use ats_onework.Prelude.{
  ℕ, String, Bool, Option, none, some, List, [], ◌∷◌, ◌&&◌, ◌==◌, if◌then◌else◌, find, select,
  update, is_some,
}
use ats_onework.Prelude.Text.{text_eq}
use ats_onework.Exec.{Exec, Error, ok, err}
use ats_onework.Constants.{ProjectAccessStatus, eq_project_access}
use ats_onework.Schema.{
  Db, User, Project, Role, ProjectMember, ProjectAccessRequest, insert_row, set_rows,
}
use ats_onework.Notifications.{before}
use ats_onework.Paging.{newest}
use ats_onework.Expenses.Repository.{given}

abbrev pub has_id : ℕ → ProjectAccessRequest → Bool
has_id request_id r = r.access_request_id == request_id

abbrev request_org_of : Option ProjectAccessRequest → Option ℕ
request_org_of none = none
request_org_of (some r) = some r.organization_id

unfoldable pub get_request_org : ℕ → Db → Option ℕ
get_request_org request_id d =
    request_org_of (find (has_id request_id) d.project_access_requests.rows)

-- The rows of the partial index `uq_par_pending` with this key.
abbrev pub is_pending_for : ℕ → ℕ → ProjectAccessRequest → Bool
is_pending_for project_id employee_id r =
    (r.project_id == project_id && r.employee_id == employee_id)
    && eq_project_access r.status ProjectAccessStatus.pending

abbrev pub find_pending : ℕ → ℕ → Db → Option ProjectAccessRequest
find_pending project_id employee_id d =
    find (is_pending_for project_id employee_id) d.project_access_requests.rows

abbrev pub new_request : ℕ → ℕ → ℕ → ℕ → ℕ → ProjectAccessRequest
new_request now employee_id project_id organization_id id = record {
  access_request_id = id;
  project_id = project_id;
  employee_id = employee_id;
  organization_id = organization_id;
  status = ProjectAccessStatus.pending;
  decided_by = none;
  decision_comment = none;
  requested_at = now;
  decided_at = none;
  updated_at = now;
}

-- The partial index refuses a second pending row.
unfoldable pub create : ℕ → ℕ → ℕ → Exec Db ProjectAccessRequest
create employee_id project_id organization_id d =
    let row : ℕ → ProjectAccessRequest = new_request d.now employee_id project_id organization_id in
    if is_some (find_pending project_id employee_id d) then (err Error.conflict, d) else (
      ok (row d.project_access_requests.next_id),
      record d { project_access_requests = insert_row row d.project_access_requests },
    )

abbrev pub has_key : ℕ → ℕ → ProjectAccessRequest → Bool
has_key request_id org_id r = r.access_request_id == request_id && r.organization_id == org_id

abbrev pub get_by_id_for_update : ℕ → ℕ → Db → Option ProjectAccessRequest
get_by_id_for_update request_id org_id d =
    find (has_key request_id org_id) d.project_access_requests.rows

-- A request with the names of what it refers to (`_PAR_JOINED_COLUMNS`).
pub record JoinedRequest : Type 0 where
  pub request : ProjectAccessRequest
  pub employee_name : String
  pub employee_email : String
  pub project_name : String

abbrev with_names :
    Option User → Option Project → ProjectAccessRequest → List JoinedRequest → List JoinedRequest
with_names (some u) (some p) r rest =
    record { request = r; employee_name = u.name; employee_email = u.email; project_name = p.name }
    ∷ rest
with_names _ _ r rest = rest

-- The inner joins of `_JOINS`.
unfoldable pub join_all : Db → List ProjectAccessRequest → List JoinedRequest
join_all d [] = []
join_all d (r ∷ rs) =
    with_names (find (λ u. u.employee_id == r.employee_id) d.users.rows)
      (find (λ p. p.project_id == r.project_id) d.projects) r (join_all d rs)

abbrev pub queued :
    ℕ → Option ℕ → Option ProjectAccessStatus → Option ℕ → ProjectAccessRequest → Bool
queued organization_id project_id status before_id r =
    r.organization_id == organization_id
    && before before_id r.access_request_id
    && given project_id (λ p. r.project_id == p)
    && given status (λ s. eq_project_access r.status s)

unfoldable pub list_by_project :
    ℕ → Option ℕ → Option ProjectAccessStatus → ℕ → Option ℕ → Db → List JoinedRequest
list_by_project organization_id project_id status limit before_id d =
    newest (λ j. j.request.access_request_id) limit
      (join_all d (
        select (queued organization_id project_id status before_id) d.project_access_requests.rows))

abbrev pub own : ℕ → ℕ → Option ℕ → ProjectAccessRequest → Bool
own employee_id organization_id before_id r =
    r.employee_id == employee_id
    && r.organization_id == organization_id
    && before before_id r.access_request_id

unfoldable pub list_by_employee : ℕ → ℕ → ℕ → Option ℕ → Db → List JoinedRequest
list_by_employee employee_id organization_id limit before_id d =
    newest (λ j. j.request.access_request_id) limit
      (join_all d
        (select (own employee_id organization_id before_id) d.project_access_requests.rows))

abbrev pub is_member_row : ℕ → ℕ → ProjectMember → Bool
is_member_row project_id employee_id m = m.project_id == project_id && m.employee_id == employee_id

abbrev pub is_project_member : ℕ → ℕ → Db → Bool
is_project_member project_id employee_id d =
    is_some (find (is_member_row project_id employee_id) d.project_members.rows)

abbrev pub new_member : ℕ → ℕ → ℕ → ℕ → ℕ → ProjectMember
new_member project_id organization_id employee_id role_id id = record {
  project_member_id = id;
  project_id = project_id;
  organization_id = organization_id;
  employee_id = employee_id;
  role_id = role_id;
}

-- ON CONFLICT (project_id, employee_id) DO NOTHING
unfoldable pub insert_member : ℕ → ℕ → ℕ → ℕ → Exec Db (Option ProjectMember)
insert_member project_id organization_id employee_id role_id d =
    let row : ℕ → ProjectMember = new_member project_id organization_id employee_id role_id in
    if is_project_member project_id employee_id d then (ok none, d) else (
      ok (some (row d.project_members.next_id)),
      record d { project_members = insert_row row d.project_members },
    )

unfoldable pub get_default_role_id : ℕ → Db → Option Role
get_default_role_id organization_id d =
    find (λ r. r.organization_id == organization_id && text_eq r.name "employee") d.roles.rows

-- The SET clause of `update_status`.
abbrev pub decided :
    ProjectAccessStatus → ℕ → Option String → ℕ → ProjectAccessRequest → ProjectAccessRequest
decided status decided_by decision_comment now r = record r {
  status = status;
  decided_by = some decided_by;
  decision_comment = decision_comment;
  decided_at = some now;
  updated_at = now;
}

-- `chk_par_decision` refuses a pending row with a decision.
unfoldable pub update_status :
    ℕ → ProjectAccessStatus → ℕ → Option String → Exec Db (Option ProjectAccessRequest)
update_status request_id status decided_by decision_comment d =
    let rows =
      update (has_id request_id) (decided status decided_by decision_comment d.now)
        d.project_access_requests.rows in
    if is_some (find (has_id request_id) rows)
      && eq_project_access status ProjectAccessStatus.pending
    then (err Error.validation, d)
    else (
      ok (find (has_id request_id) rows),
      record d { project_access_requests = set_rows rows d.project_access_requests },
    )
