-- ===== src/ProjectRequests/Grant.antt =====
-- The membership that an approval grants, and the row that a decision writes.
use ats_onework.Prelude.{
  ℕ, String, Bool, true, false, Option, none, [], ◌∷◌, ◌≡◌, ◌≢◌, refl, sym, ap, subst, ◌∙◌, find,
  update, is_some, Option-cases, inl, inr, find-append_none, arith, ==-refl,
}
use ats_onework.Exec.{Exec, Error, ok, pure, ◌>>◌}
use ats_onework.Exec.Frame.{Leaves, leaves_rules}
use ats_onework.Exec.Inversion.{or_raise-bind-eq-ok, >>=-eq-ok}
use ats_onework.Constants.{ProjectAccessStatus, project_access_transitions}
use ats_onework.Schema.{
  Piece, Message, Db, Table, Role, ProjectAccessRequest, ProjectMember, insert_row, set_rows,
}
use ats_onework.Audit.{Values, log}
use ats_onework.Notifications
use ats_onework.Notifications.{NotificationCreate}
use ats_onework.ProjectRequests.Repository.{
  has_id, is_member_row, is_project_member, new_member, decided, insert_member, update_status,
  get_default_role_id,
}
use ats_onework.ProjectRequests.Service.{grant_new, grant_membership, grant_if, record_decision}
use ats_onework.ProjectRequests.Step.{OnRoster, RosterStep, kept, joined}

-- The tables of the module.
abbrev pub tables : Db → Table ProjectAccessRequest × Table ProjectMember
tables d = (d.project_access_requests, d.project_members)

-- The legal decisions are those on a pending request, and they settle it.
pub legal_cases :
    (s t : ProjectAccessStatus)
    → project_access_transitions s t ≡ true
    → (s ≡ ProjectAccessStatus.pending) × (t ≢ ProjectAccessStatus.pending)
unfolding project_access_transitions
legal_cases s t h = ground arith

-- A roster to which a member was added has the member.
joined-OnRoster :
    (ms : Table ProjectMember) (r : ProjectAccessRequest) (org role : ℕ)
    → find (is_member_row r.project_id r.employee_id) ms.rows ≡ none
    → OnRoster (insert_row (new_member r.project_id org r.employee_id role) ms) r
joined-OnRoster ms r org role free =
    let row = new_member r.project_id org r.employee_id role ms.next_id in
    let last =
      find-append_none (is_member_row r.project_id r.employee_id) ms.rows (row ∷ []) free in
    rw (last, ==-refl r.project_id, ==-refl r.employee_id) refl

log-tables :
    (a o : Option ℕ) (action : Message) (t : String) (id : Piece) (old new : Option Values)
    → Leaves tables (log a o action t id old new)
unfolding log
log-tables a o action t id old new = record { at = λ d. refl }

notify-tables : (n : NotificationCreate) → Leaves tables (Notifications.insert n)
unfolding Notifications.insert
notify-tables n = record { at = λ d. refl }

-- What a grant that returns has done.
pub record Granted (r : ProjectAccessRequest) (d d' : Db) : Type 0 where
  pub requests : d'.project_access_requests ≡ d.project_access_requests
  pub roster : RosterStep d.project_members d'.project_members
  pub on_roster : OnRoster d'.project_members r

module _ (row : ProjectAccessRequest) (org : ℕ) (d : Db) where
  insert_member-free :
      (role : ℕ)
      → find (is_member_row row.project_id row.employee_id) d.project_members.rows ≡ none
      → Granted row d (insert_member row.project_id org row.employee_id role d).1
  unfolding insert_member
  insert_member-free role free = rw free (record {
    requests = refl;
    roster = joined row.project_id org row.employee_id role free refl;
    on_roster = joined-OnRoster d.project_members row org role free;
  })

  free-of_false :
      is_project_member row.project_id row.employee_id d ≡ false
      → find (is_member_row row.project_id row.employee_id) d.project_members.rows ≡ none
  free-of_false e =
      let found = find (is_member_row row.project_id row.employee_id) d.project_members.rows in
      elim (Option-cases found) [ inl n ↦ n | inr (m, s) ↦ absurd (cc (e, ap is_some s)) ]

  grant_new-eq-ok :
      (b : Bool) {d' : Db}
      → is_project_member row.project_id row.employee_id d ≡ b
      → grant_new row org b d ≡ (ok tt, d')
      → Granted row d d'
  unfolding grant_new
  grant_new-eq-ok true e h =
      subst (Granted row d) (ap (λ x. x.1) h)
        (record { requests = refl; roster = kept refl; on_roster = e })
  grant_new-eq-ok false e h =
      let add : Role → Exec Db (Option ProjectMember) =
        λ role. insert_member row.project_id org row.employee_id role.role_id in
      let (role, found, h1) =
        or_raise-bind-eq-ok (get_default_role_id org d) Error.conflict (λ role. add role >> pure tt)
          d h in
      let (o, d1, added, h2) = >>=-eq-ok (add role) (λ _. pure tt) d h1 in
      subst (Granted row d) (ap (λ x. x.1) added ∙ ap (λ x. x.1) h2)
        (insert_member-free role.role_id (free-of_false e))

  -- A grant that returns leaves the employee on the roster.
  pub grant_membership-eq-ok :
      {d' : Db} → grant_membership row org d ≡ (ok tt, d') → Granted row d d'
  unfolding grant_membership
  grant_membership-eq-ok h =
      grant_new-eq-ok (is_project_member row.project_id row.employee_id d) refl h

  pub grant_if-eq-ok :
      (b : Bool) {d' : Db}
      → grant_if b row org d ≡ (ok tt, d')
      → (d'.project_access_requests ≡ d.project_access_requests)
        × RosterStep d.project_members d'.project_members
        × (b ≡ true → OnRoster d'.project_members row)
  unfolding grant_if
  grant_if-eq-ok true h =
      let g = grant_membership-eq-ok h in (g.requests, g.roster, λ _. g.on_roster)
  grant_if-eq-ok false {d'} h =
      let same : d ≡ d' = ap (λ x. x.1) h in
      (
        ap (λ x. x.project_access_requests) (sym same),
        kept (ap (λ x. x.project_members) (sym same)),
        λ e. absurd (cc),
      )

-- An update of the status that returns has written it.
pub update_status-eq-ok :
    (id by : ℕ) (status : ProjectAccessStatus) (comment : Option String) (d : Db)
    {o : Option ProjectAccessRequest} {d' : Db}
    → status ≢ ProjectAccessStatus.pending
    → update_status id status by comment d ≡ (ok o, d')
    → (tables d' ≡ (
      set_rows
          (update (has_id id) (decided status by comment d.now) d.project_access_requests.rows)
          d.project_access_requests,
      d.project_members,
    ))
      × (o ≡ find (has_id id) d'.project_access_requests.rows)
unfolding update_status
update_status-eq-ok id by status comment d settles h = ground arith

pub record_decision-tables :
    (actor org id : ℕ) (status : ProjectAccessStatus) (row : ProjectAccessRequest)
    (o : Option ProjectAccessRequest)
    → Leaves tables (record_decision actor org id status row o)
unfolding record_decision
record_decision-tables actor org id status row o =
    search (leaves_rules, log-tables, notify-tables) depth 16 fits 4000
