-- ===== src/ProjectRequests/Service.antt =====
-- project_requests/service.py: the methods of `ProjectAccessService`.
use ats_onework.Prelude.{
  ℕ, String, Bool, true, false, Option, none, some, List, [], ◌∷◌, not, is_some,
}
use ats_onework.Prelude.Text.{strip, or_empty, or_none}
use ats_onework.Exec.{Exec, Error, pure, raise, gets, or_raise, raise_if, transaction, ◌>>=◌, ◌>>◌}
use ats_onework.Constants.{
  ProjectAccessStatus, eq_project_access, project_access_value, project_access_transitions,
}
use ats_onework.Schema.{Db, ProjectAccessRequest, lit, num, number, text}
use ats_onework.Tenant.{require_member, require_admin}
use ats_onework.Audit.{log}
use ats_onework.Notifications
use ats_onework.Expenses.Repository.{get_project_org}
use ats_onework.ProjectRequests.Repository.{
  JoinedRequest, create, is_project_member, find_pending, list_by_project, list_by_employee,
  get_request_org, get_by_id_for_update, get_default_role_id, insert_member, update_status,
}

-- The transaction of `request_access`.
unfoldable pub insert_request : ℕ → ℕ → ℕ → Exec Db ProjectAccessRequest
insert_request employee_id project_id org_id = do
  member ← gets (is_project_member project_id employee_id)
  raise_if member Error.conflict
  found ← gets (find_pending project_id employee_id)
  raise_if (is_some found) Error.conflict
  row ← create employee_id project_id org_id
  log (some employee_id) (some org_id) (lit "project_access.request" ∷ []) "project_access_requests"
      (num row.access_request_id) none
      (some (("project_id", number project_id) ∷ ("organization_id", number org_id) ∷ []))
  pure row

unfoldable pub request_in : ℕ → ℕ → Option ℕ → Exec Db ProjectAccessRequest
request_in employee_id project_id none = raise Error.not_found
request_in employee_id project_id (some org_id) = do
  require_member employee_id org_id
  transaction (insert_request employee_id project_id org_id)

unfoldable pub request_access : ℕ → ℕ → Exec Db ProjectAccessRequest
request_access employee_id project_id d =
    request_in employee_id project_id (get_project_org project_id d) d

abbrev pub list_in :
    ℕ → ℕ → Option ProjectAccessStatus → ℕ → Option ℕ → Option ℕ → Exec Db (List JoinedRequest)
list_in actor_id project_id status limit before_id none = raise Error.not_found
list_in actor_id project_id status limit before_id (some org_id) = do
  require_admin actor_id org_id
  gets (list_by_project org_id (some project_id) status limit before_id)

unfoldable pub list_for_project :
    ℕ → ℕ → Option ProjectAccessStatus → ℕ → Option ℕ → Exec Db (List JoinedRequest)
list_for_project actor_id project_id status limit before_id d =
    list_in actor_id project_id status limit before_id (get_project_org project_id d) d

unfoldable pub list_org_queue :
    ℕ → ℕ → Option ProjectAccessStatus → ℕ → Option ℕ → Exec Db (List JoinedRequest)
list_org_queue actor_id organization_id status limit before_id = do
  require_admin actor_id organization_id
  gets (list_by_project organization_id none status limit before_id)

unfoldable pub list_mine : ℕ → ℕ → ℕ → Option ℕ → Exec Db (List JoinedRequest)
list_mine employee_id organization_id limit before_id = do
  require_member employee_id organization_id
  gets (list_by_employee employee_id organization_id limit before_id)

-- `_grant_membership`
unfoldable pub grant_new : ProjectAccessRequest → ℕ → Bool → Exec Db (Unit {0})
grant_new row organization_id true = pure tt
grant_new row organization_id false = do
  found ← gets (get_default_role_id organization_id)
  role ← or_raise found Error.conflict
  insert_member row.project_id organization_id row.employee_id role.role_id
  pure tt

unfoldable pub grant_membership : ProjectAccessRequest → ℕ → Exec Db (Unit {0})
grant_membership row organization_id d =
    grant_new row organization_id (is_project_member row.project_id row.employee_id d) d

unfoldable pub grant_if : Bool → ProjectAccessRequest → ℕ → Exec Db (Unit {0})
grant_if true row organization_id = grant_membership row organization_id
grant_if false row organization_id = pure tt

-- What `_decide` does once the row has its new status.
unfoldable pub record_decision :
    ℕ
    → ℕ
    → ℕ
    → ProjectAccessStatus
    → ProjectAccessRequest
    → Option ProjectAccessRequest
    → Exec Db ProjectAccessRequest
record_decision actor_id org_id request_id status row updated = do
  result ← or_raise updated Error.assertion
  log (some actor_id) (some org_id) (lit "project_access." ∷ lit (project_access_value status) ∷ [])
      "project_access_requests" (num request_id)
      (some (("status", text (lit (project_access_value row.status) ∷ [])) ∷ []))
      (some (("status", text (lit (project_access_value status) ∷ [])) ∷ []))
  Notifications.insert (record {
    employee_id = row.employee_id;
    title = lit "Project access " ∷ lit (project_access_value status) ∷ [];
    message =
        lit "Your access request for project #"
        ∷ num row.project_id
        ∷ lit " was "
        ∷ lit (project_access_value status)
        ∷ lit "."
        ∷ [];
    type = lit "project_access." ∷ lit (project_access_value status) ∷ [];
    reference_id = some request_id;
  })
  pure result

-- What `_decide` does with the locked row.
unfoldable pub decide_row :
    ℕ
    → ℕ
    → ℕ
    → ProjectAccessStatus
    → Option String
    → ProjectAccessRequest
    → Exec Db ProjectAccessRequest
decide_row actor_id org_id request_id status comment row = do
  raise_if (not (project_access_transitions row.status status)) Error.conflict
  grant_if (eq_project_access status ProjectAccessStatus.approved) row org_id
  updated ← update_status request_id status actor_id (or_none (strip (or_empty comment)))
  record_decision actor_id org_id request_id status row updated

unfoldable pub decide_in :
    ℕ → ℕ → ProjectAccessStatus → Option String → Option ℕ → Exec Db ProjectAccessRequest
decide_in actor_id request_id status comment none = raise Error.not_found
decide_in actor_id request_id status comment (some org_id) = do
  require_admin actor_id org_id
  transaction (do
    found ← gets (get_by_id_for_update request_id org_id)
    row ← or_raise found Error.not_found
    decide_row actor_id org_id request_id status comment row)

-- `_decide`
unfoldable pub decide : ℕ → ℕ → ProjectAccessStatus → Option String → Exec Db ProjectAccessRequest
decide actor_id request_id status comment d =
    decide_in actor_id request_id status comment (get_request_org request_id d) d

unfoldable pub approve : ℕ → ℕ → Option String → Exec Db ProjectAccessRequest
approve actor_id request_id comment =
    decide actor_id request_id ProjectAccessStatus.approved comment

unfoldable pub reject : ℕ → ℕ → Option String → Exec Db ProjectAccessRequest
reject actor_id request_id comment = decide actor_id request_id ProjectAccessStatus.rejected comment
