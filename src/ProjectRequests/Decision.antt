-- ===== src/ProjectRequests/Decision.antt =====
-- What a decision on an access request has checked and written.
use ats_onework.Prelude.{
  ℕ, String, true, Option, none, some, ◌≡◌, ◌≢◌, refl, sym, ap, subst, ◌∙◌, not, ◌==◌, find,
  find_sound, find_by_key, find-update-some, update, Distinct, arith, ==-refl,
}
use ats_onework.Prelude.Text.{strip, or_empty, or_none}
use ats_onework.Exec.{Exec, Error, ok, gets, or_raise, transaction, ◌>>=◌, ◌>>◌}
use ats_onework.Exec.Inversion.{
  >>=-eq-ok, or_raise-bind-eq-ok, raise_if-bind-eq-ok, transaction-eq-ok,
}
use ats_onework.Constants.{ProjectAccessStatus, eq_project_access, project_access_transitions}
use ats_onework.Schema.{Db, Membership, ProjectAccessRequest, set_rows}
use ats_onework.Tenant.{get_membership, require_admin}
use ats_onework.Tenant.Guards.{require_admin-eq-ok}
use ats_onework.ProjectRequests.Repository.{
  has_id, has_key, decided, update_status, get_request_org, get_by_id_for_update,
}
use ats_onework.ProjectRequests.Service.{grant_if, record_decision, decide_row, decide_in, decide}
use ats_onework.ProjectRequests.Step.{OnRoster, RosterStep, StepOf, settled}
use ats_onework.ProjectRequests.Grant.{
  tables, legal_cases, grant_if-eq-ok, update_status-eq-ok, record_decision-tables,
}

-- The decision `target` of `actor` on the request `id`, and the tables before and after it.
pub record Decided (actor id : ℕ) (target : ProjectAccessStatus) (d d' : Db) : Type 0 where
  pub org : ℕ
  pub member : Membership
  pub is_member : get_membership actor org d.memberships.rows ≡ some member
  pub is_admin : member.is_admin ≡ true
  pub row : ProjectAccessRequest
  pub found : find (has_key id org) d.project_access_requests.rows ≡ some row
  pub was_pending : row.status ≡ ProjectAccessStatus.pending
  pub after : ProjectAccessRequest
  pub stored : find (has_id id) d'.project_access_requests.rows ≡ some after
  pub status : after.status ≡ target
  pub decided_by : after.decided_by ≡ some actor
  pub on_roster : target ≡ ProjectAccessStatus.approved → OnRoster d'.project_members row

eq-approved :
    (s : ProjectAccessStatus)
    → s ≡ ProjectAccessStatus.approved
    → eq_project_access s ProjectAccessStatus.approved ≡ true
eq-approved s e = rw e refl

module _ (actor id : ℕ) (status : ProjectAccessStatus) (comment : Option String) where
  abbrev written : ℕ → ProjectAccessRequest → ProjectAccessRequest
  written now = decided status actor (or_none (strip (or_empty comment))) now

  -- What a decision on the locked row has done to the tables.
  record Settles (org : ℕ) (row : ProjectAccessRequest) (d d' : Db) : Type 0 where
    was_pending : row.status ≡ ProjectAccessStatus.pending
    settles : status ≢ ProjectAccessStatus.pending
    now : ℕ
    requests :
        d'.project_access_requests
        ≡ set_rows
            (update (has_id id) (written now) d.project_access_requests.rows)
            d.project_access_requests
    roster : RosterStep d.project_members d'.project_members
    on_roster : status ≡ ProjectAccessStatus.approved → OnRoster d'.project_members row

  decide_row-eq-ok :
      (org : ℕ) (row : ProjectAccessRequest) (d d' : Db) {r : ProjectAccessRequest}
      → decide_row actor org id status comment row d ≡ (ok r, d')
      → Settles org row d d'
  unfolding decide_row
  decide_row-eq-ok org row d d' h =
      let approves = eq_project_access status ProjectAccessStatus.approved in
      let grant = grant_if approves row org in
      let write = update_status id status actor (or_none (strip (or_empty comment))) in
      let record_it = record_decision actor org id status row in
      let (legal, h1) =
        raise_if-bind-eq-ok (not (project_access_transitions row.status status)) Error.conflict
          (grant >> (write >>= record_it)) d h in
      let (u, d1, granted, h2) = >>=-eq-ok grant (λ _. write >>= record_it) d h1 in
      let (o, d2, updated, h3) = >>=-eq-ok write record_it d1 h2 in
      let (pending, settles) = legal_cases row.status status (ground (arith, legal)) in
      let (same, roster, on_roster) = grant_if-eq-ok row org d approves granted in
      let wrote = (update_status-eq-ok id actor status _ d1 settles updated).0 in
      let after : tables d' ≡ tables d2 =
        rw h3 at ((record_decision-tables actor org id status row o).at d2) in
      let at_end = after ∙ wrote in
      record {
        was_pending = pending;
        settles = settles;
        now = d1.now;
        requests =
            subst
              (λ t.
                d'.project_access_requests
                ≡ set_rows (update (has_id id) (written d1.now) t.rows) t)
              same (ap (λ x. x.0) at_end);
        roster = subst (RosterStep d.project_members) (sym (ap (λ x. x.1) at_end)) roster;
        on_roster = λ e.
            subst (λ t. OnRoster t row) (sym (ap (λ x. x.1) at_end))
              (on_roster (eq-approved status e));
      }

  decide_in-eq-ok :
      (found : Option ℕ) (d d' : Db) {r : ProjectAccessRequest}
      → decide_in actor id status comment found d ≡ (ok r, d')
      → (org : ℕ) × (m : Membership) × (row : ProjectAccessRequest) × (get_membership actor org
            d.memberships.rows
          ≡ some m)
        × (m.is_admin ≡ true)
        × (find (has_key id org) d.project_access_requests.rows ≡ some row)
        × Settles org row d d'
  unfolding decide_in
  decide_in-eq-ok none d d' h = absurd (cc)
  decide_in-eq-ok (some org) d d' {r} h =
      let method = decide_row actor org id status comment in
      let body : Exec Db ProjectAccessRequest =
        gets (get_by_id_for_update id org) >>= λ f. or_raise f Error.not_found >>= method in
      let (m, d0, guarded, h1) = >>=-eq-ok (require_admin actor org) (λ _. transaction body) d h in
      let (member, admin, same) = require_admin-eq-ok actor org d guarded in
      let h2 = transaction-eq-ok body d (subst (λ x. transaction body x ≡ (ok r, d')) same h1) in
      let (row, located, h3) =
        or_raise-bind-eq-ok (get_by_id_for_update id org d) Error.not_found method d h2 in
      (org, m, row, member, admin, located, decide_row-eq-ok org row d d' h3)

  settled-Step :
      (org : ℕ) (row : ProjectAccessRequest) (d d' : Db)
      → find (has_key id org) d.project_access_requests.rows ≡ some row
      → Settles org row d d'
      → StepOf org d d'
  settled-Step org row d d' located s =
      settled id actor s.now (or_none (strip (or_empty comment))) row status located s.was_pending
        s.settles s.roster s.on_roster s.requests

  -- A decision that returns is a step of an organization.
  pub decide-Step :
      (d d' : Db) (r : ProjectAccessRequest)
      → decide actor id status comment d ≡ (ok r, d')
      → (org : ℕ) × StepOf org d d'
  unfolding decide
  decide-Step d d' r h =
      let (org, m, row, member, admin, located, s) =
        decide_in-eq-ok (get_request_org id d) d d' h in
      (org, settled-Step org row d d' located s)

  settled-stored :
      (org : ℕ) (row : ProjectAccessRequest) (d d' : Db)
      → Distinct (λ r. r.access_request_id) d.project_access_requests.rows
      → find (has_key id org) d.project_access_requests.rows ≡ some row
      → (s : Settles org row d d')
      → find (has_id id) d'.project_access_requests.rows ≡ some (written s.now row)
  settled-stored org row d d' distinct located s =
      let rows = d.project_access_requests.rows in
      let key : row.access_request_id ≡ id =
        ground (arith, find_sound (has_key id org) rows located) in
      let by_id =
        subst (λ k. find (has_id k) rows ≡ some row) key
          (find_by_key (λ e. e.access_request_id) (has_key id org) rows distinct located) in
      let after = find-update-some (has_id id) (has_id id) (written s.now) rows (λ e. refl) by_id in
      let hit : has_id id row ≡ true = subst (λ k. (k == id) ≡ true) (sym key) (==-refl id) in
      rw (s.requests, after, hit) refl

  -- If the keys of the requests are distinct, a decision that returns was made by an administrator of
  -- the request's organization on a pending request, the stored request has the decision and the name
  -- of its maker, and the employee of an approved request is a member of the project.
  pub decide-Decided :
      (d d' : Db) (r : ProjectAccessRequest)
      → Distinct (λ r. r.access_request_id) d.project_access_requests.rows
      → decide actor id status comment d ≡ (ok r, d')
      → Decided actor id status d d'
  unfolding decide
  decide-Decided d d' r distinct h =
      let (org, m, row, member, admin, located, s) =
        decide_in-eq-ok (get_request_org id d) d d' h in
      record {
        org = org;
        member = m;
        is_member = member;
        is_admin = admin;
        row = row;
        found = located;
        was_pending = s.was_pending;
        after = written s.now row;
        stored = settled-stored org row d d' distinct located s;
        status = refl;
        decided_by = refl;
        on_roster = s.on_roster;
      }
