-- ===== src/ProjectRequests/Approval.antt =====
-- When an approval, and a request for access, return.
use ats_onework.Prelude.{
  ℕ, String, true, Option, some, ◌≡◌, refl, sym, subst, ◌⊎◌, inl, inr, arith, find, find_sound,
  find_by_key, find-update-some, Distinct, Bool-cases,
}
use ats_onework.Prelude.Text.{strip, or_empty, or_none}
use ats_onework.Exec.{transaction, ok}
use ats_onework.Constants.{ProjectAccessStatus, project_access_transitions}
use ats_onework.Schema.{Db, Membership, Role, ProjectAccessRequest, ProjectMember}
use ats_onework.Tenant.{get_membership, require_admin, require_path_admin, require_path_member}
use ats_onework.Audit.{log}
use ats_onework.Notifications
use ats_onework.ProjectRequests.Repository.{
  has_id, has_key, is_project_member, get_default_role_id, insert_member, update_status, decided,
  get_request_org,
}
use ats_onework.ProjectRequests.Service.{
  grant_new, grant_membership, grant_if, record_decision, decide_row, decide_in, decide, approve,
}
use ats_onework.ProjectRequests.Step.{OnRoster}
use ats_onework.ProjectRequests.Decision.{Decided, decide-Decided}

module _ (row : ProjectAccessRequest) (org : ℕ) (d : Db) where
  -- The employee is on the roster, or the organization has a role for a new member.
  abbrev pub Grantable : Type 0
  Grantable =
      OnRoster d.project_members row ⊎ ((role : Role) × (get_default_role_id org d ≡ some role))

  insert_member-returns :
      (role : ℕ)
      → (o : Option ProjectMember) × (d' : Db) × (insert_member row.project_id org row.employee_id
            role d
          ≡ (ok o, d'))
        × (d'.project_access_requests ≡ d.project_access_requests)
  unfolding insert_member
  insert_member-returns role =
      elim (Bool-cases (is_project_member row.project_id row.employee_id d)) [
        | inl e ↦ rw e (_, _, refl, refl)
        | inr e ↦ rw e (_, _, refl, refl)
      ]

  grant-returns :
      Grantable
      → (d' : Db) × (grant_membership row org d ≡ (ok tt, d'))
        × (d'.project_access_requests ≡ d.project_access_requests)
  unfolding grant_membership grant_new
  grant-returns (inl on) = rw on (d, refl, refl)
  grant-returns (inr (role, found)) =
      elim (Bool-cases (is_project_member row.project_id row.employee_id d)) [
        | inl e ↦ rw e (d, refl, refl)
        | inr e ↦
            let (o, d', added, same) = insert_member-returns role.role_id in
            rw (e, found, added) (d', refl, same)
      ]

update_status-returns :
    (id by : ℕ) (comment : Option String) (d : Db) (row : ProjectAccessRequest)
    → find (has_id id) d.project_access_requests.rows ≡ some row
    → (r : ProjectAccessRequest) × (d' : Db) × (update_status id ProjectAccessStatus.approved by
          comment d
        ≡ (ok (some r), d'))
unfolding update_status
update_status-returns id by comment d row found =
    let f = decided ProjectAccessStatus.approved by comment d.now in
    let after =
      find-update-some (has_id id) (has_id id) f d.project_access_requests.rows (λ x. refl) found in
    rw after (_, _, refl)

pending-legal :
    (s : ProjectAccessStatus)
    → s ≡ ProjectAccessStatus.pending
    → project_access_transitions s ProjectAccessStatus.approved ≡ true
unfolding project_access_transitions
pending-legal s e = rw e refl

decide_row-returns :
    (actor org id : ℕ) (comment : Option String) (d : Db) (row : ProjectAccessRequest)
    → find (has_id id) d.project_access_requests.rows ≡ some row
    → row.status ≡ ProjectAccessStatus.pending
    → Grantable row org d
    → (r : ProjectAccessRequest) × (d' : Db) × (decide_row actor org id ProjectAccessStatus.approved
          comment row d
        ≡ (ok r, d'))
unfolding decide_row grant_if record_decision log Notifications.insert
decide_row-returns actor org id comment d row found was grantable =
    let (d1, granted, same) = grant-returns row org d grantable in
    let still = subst (λ t. find (has_id id) t.rows ≡ some row) (sym same) found in
    let (r, d2, wrote) =
      update_status-returns id actor (or_none (strip (or_empty comment))) d1 row still in
    rw (pending-legal row.status was, granted, wrote) (r, _, refl)

request_org :
    (id org : ℕ) (d : Db) (row : ProjectAccessRequest)
    → Distinct (λ r. r.access_request_id) d.project_access_requests.rows
    → find (has_key id org) d.project_access_requests.rows ≡ some row
    → (find (has_id id) d.project_access_requests.rows ≡ some row)
      × (get_request_org id d ≡ some org)
unfolding get_request_org
request_org id org d row distinct located =
    let rows = d.project_access_requests.rows in
    let hit = find_sound (has_key id org) rows located in
    let key : row.access_request_id ≡ id = ground (arith, hit) in
    let own : row.organization_id ≡ org = ground (arith, hit) in
    let by_id =
      subst (λ k. find (has_id k) rows ≡ some row) key
        (find_by_key (λ e. e.access_request_id) (has_key id org) rows distinct located) in
    (by_id, rw (by_id, own) refl)

admin-returns :
    (actor org : ℕ) (d : Db) (m : Membership)
    → get_membership actor org d.memberships.rows ≡ some m
    → m.is_admin ≡ true
    → require_admin actor org d ≡ (ok m, d)
unfolding require_admin require_path_admin require_path_member
admin-returns actor org d m member admin = rw (member, admin) refl

-- If the keys of the requests are distinct, an administrator's approval of a pending request of the
-- organization returns if the employee is a member of the project or the organization has the role
-- `employee`, and then the stored request is approved and the employee is a member of the project.
pub approve-pending :
    (actor org id : ℕ) (comment : Option String) (d : Db) (m : Membership)
    (row : ProjectAccessRequest)
    → Distinct (λ r. r.access_request_id) d.project_access_requests.rows
    → get_membership actor org d.memberships.rows ≡ some m
    → m.is_admin ≡ true
    → find (has_key id org) d.project_access_requests.rows ≡ some row
    → row.status ≡ ProjectAccessStatus.pending
    → Grantable row org d
    → (r : ProjectAccessRequest) × (d' : Db) × (approve actor id comment d ≡ (ok r, d'))
      × Decided actor id ProjectAccessStatus.approved d d'
unfolding approve decide decide_in transaction
approve-pending actor org id comment d m row distinct member admin located was grantable =
    let (by_id, here) = request_org id org d row distinct located in
    let (r, d', done) = decide_row-returns actor org id comment d row by_id was grantable in
    let returns : approve actor id comment d ≡ (ok r, d') =
      rw (here, admin-returns actor org d m member admin, located, done) refl in
    (
      r,
      d',
      returns,
      decide-Decided actor id ProjectAccessStatus.approved comment d d' r distinct returns,
    )
