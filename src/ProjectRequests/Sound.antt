-- ===== src/ProjectRequests/Sound.antt =====
-- Which tables of access requests and project members are sound, and that a step keeps them so.
use ats_onework.Prelude.{
  ℕ, ◌≤◌, ◌<◌, String, true, Option, none, List, ◌≡◌, ◌≢◌, refl, sym, subst, ◌∙◌, arith, All,
  All-update, All-append_one, All-map, All-unique, Distinct, Distinct-update, Distinct-append,
  below-append, below-update, count, count-update-le, find, find_sound, is_some,
  is_some-find-append, count-append-le, All-both, ==-eq,
}
use ats_onework.Constants.{ProjectAccessStatus}
use ats_onework.Schema.{Db, Table, ProjectAccessRequest, ProjectMember}
use ats_onework.ProjectRequests.Repository.{
  has_id, has_key, is_pending_for, is_member_row, new_request, new_member, decided,
}
use ats_onework.ProjectRequests.Step.{
  OnRoster, RosterStep, kept, joined, unchanged, asked, settled, StepOf,
}

-- A decision stands exactly where the request is no longer pending (`chk_par_decision`).
abbrev pub Checked : ProjectAccessRequest → Type 0
Checked r =
    (r.status ≡ ProjectAccessStatus.pending → (r.decided_at ≡ none) × (r.decided_by ≡ none))
    × (r.status ≢ ProjectAccessStatus.pending → is_some r.decided_at ≡ true)

-- The employee of an approved request is on the roster.
abbrev pub Honoured : Table ProjectMember → ProjectAccessRequest → Type 0
Honoured ms r = r.status ≡ ProjectAccessStatus.approved → OnRoster ms r

pub record IsSound (d : Db) : Type 0 where
  pub distinct : Distinct (λ r. r.access_request_id) d.project_access_requests.rows
  pub below :
      All
        (λ r. r.access_request_id < d.project_access_requests.next_id)
        d.project_access_requests.rows
  pub one_pending :
      (project employee : ℕ)
      → count (is_pending_for project employee) d.project_access_requests.rows ≤ 1
  pub one_seat :
      (project employee : ℕ) → count (is_member_row project employee) d.project_members.rows ≤ 1
  pub checked : All Checked d.project_access_requests.rows
  pub honoured : All (Honoured d.project_members) d.project_access_requests.rows

same-seat :
    (ms : List ProjectMember) (p e project employee : ℕ) (m : ProjectMember)
    → m.project_id ≡ p
    → m.employee_id ≡ e
    → find (is_member_row p e) ms ≡ none
    → is_member_row project employee m ≡ true
    → find (is_member_row project employee) ms ≡ none
same-seat ms p e project employee m hp he free hit =
    let same_p : p ≡ project = ground arith in
    let same_e : e ≡ employee = ground arith in
    subst (λ k. find (is_member_row k employee) ms ≡ none) same_p
      (subst (λ k. find (is_member_row p k) ms ≡ none) same_e free)

same-pending :
    (rs : List ProjectAccessRequest) (p e project employee : ℕ) (r : ProjectAccessRequest)
    → r.project_id ≡ p
    → r.employee_id ≡ e
    → find (is_pending_for p e) rs ≡ none
    → is_pending_for project employee r ≡ true
    → find (is_pending_for project employee) rs ≡ none
same-pending rs p e project employee r hp he free hit =
    let same_p : p ≡ project = ground arith in
    let same_e : e ≡ employee = ground arith in
    subst (λ k. find (is_pending_for k employee) rs ≡ none) same_p
      (subst (λ k. find (is_pending_for p k) rs ≡ none) same_e free)

module _ {ms ms' : Table ProjectMember} where
  -- A row of the roster stays.
  roster-OnRoster : RosterStep ms ms' → (r : ProjectAccessRequest) → OnRoster ms r → OnRoster ms' r
  roster-OnRoster (kept same) r h = rw same h
  roster-OnRoster (joined p o e role free same) r h =
      rw same (is_some-find-append (is_member_row r.project_id r.employee_id) ms.rows _ h)

  roster-one_seat :
      RosterStep ms ms'
      → ((project employee : ℕ) → count (is_member_row project employee) ms.rows ≤ 1)
      → (project employee : ℕ) → count (is_member_row project employee) ms'.rows ≤ 1
  roster-one_seat (kept same) h project employee = rw same (h project employee)
  roster-one_seat (joined p o e role free same) h project employee =
      let row = new_member p o e role ms.next_id in
      rw same (
        count-append-le (is_member_row project employee) ms.rows row
          (same-seat ms.rows p e project employee row refl refl free) (h project employee))

settled-not_pending :
    (project employee by now : ℕ) (status : ProjectAccessStatus) (comment : Option String)
    (x : ProjectAccessRequest)
    → status ≢ ProjectAccessStatus.pending
    → is_pending_for project employee (decided status by comment now x) ≡ true
    → is_pending_for project employee x ≡ true
settled-not_pending project employee by now status comment x settles hit = ground arith

-- A step keeps the tables sound.
module _ (org : ℕ) (d d' : Db) where
  step-Distinct :
      IsSound d
      → StepOf org d d'
      → Distinct (λ r. r.access_request_id) d'.project_access_requests.rows
  step-Distinct s (unchanged same _) = rw same s.distinct
  step-Distinct s (asked now e p free same _) = rw same (
      Distinct-append (λ r. r.access_request_id) d.project_access_requests.next_id
        d.project_access_requests.rows _ s.distinct s.below refl)
  step-Distinct s (settled id by now comment row status located was settles seat grants same) =
      rw same (
        Distinct-update (λ r. r.access_request_id) (has_id id) (decided status by comment now)
          d.project_access_requests.rows (λ x. refl) s.distinct)

  step-below :
      IsSound d
      → StepOf org d d'
      → All
          (λ r. r.access_request_id < d'.project_access_requests.next_id)
          d'.project_access_requests.rows
  step-below s (unchanged same _) = rw same s.below
  step-below s (asked now e p free same _) = rw same (
      below-append (λ r. r.access_request_id) d.project_access_requests.next_id
        d.project_access_requests.rows _ s.below refl)
  step-below s (settled id by now comment row status located was settles seat grants same) =
      rw same (
        below-update (λ r. r.access_request_id) d.project_access_requests.next_id (has_id id)
          (decided status by comment now) d.project_access_requests.rows (λ x. refl) s.below)

  step-one_pending :
      IsSound d
      → StepOf org d d'
      → (project employee : ℕ)
      → count (is_pending_for project employee) d'.project_access_requests.rows ≤ 1
  step-one_pending s (unchanged same _) project employee = rw same (s.one_pending project employee)
  step-one_pending s (asked now e p free same _) project employee =
      let rows = d.project_access_requests.rows in
      let row = new_request now e p org d.project_access_requests.next_id in
      rw same (
        count-append-le (is_pending_for project employee) rows row
          (same-pending rows p e project employee row refl refl free)
          (s.one_pending project employee))
  step-one_pending s (settled id by now comment row status located was settles seat grants same)
        project employee =
      let fewer =
        count-update-le (is_pending_for project employee) (has_id id)
          (decided status by comment now) d.project_access_requests.rows
          (λ x _. settled-not_pending project employee by now status comment x settles) in
      let one = s.one_pending project employee in rw same (omega arith)

  step-one_seat :
      IsSound d
      → StepOf org d d'
      → (project employee : ℕ) → count (is_member_row project employee) d'.project_members.rows ≤ 1
  step-one_seat s (unchanged _ same) = rw same s.one_seat
  step-one_seat s (asked now e p free _ same) = rw same s.one_seat
  step-one_seat s (settled id by now comment row status located was settles seat grants same) =
      roster-one_seat seat s.one_seat

  step-Checked : IsSound d → StepOf org d d' → All Checked d'.project_access_requests.rows
  step-Checked s (unchanged same _) = rw same s.checked
  step-Checked s (asked now e p free same _) = rw same (
      All-append_one Checked d.project_access_requests.rows _ s.checked
        (λ _. (refl, refl), λ other. absurd (other refl)))
  step-Checked s (settled id by now comment row status located was settles seat grants same) =
      rw same (
        All-update Checked Checked (has_id id) (decided status by comment now)
          d.project_access_requests.rows (λ x _ _. (λ e. absurd (settles e), λ _. refl)) (λ x h. h)
          s.checked)

  step-Honoured :
      IsSound d
      → StepOf org d d'
      → All (Honoured d'.project_members) d'.project_access_requests.rows
  step-Honoured s (unchanged same ms) = rw (same, ms) s.honoured
  step-Honoured s (asked now e p free same ms) =
      rw (same, ms)
        (All-append_one (Honoured d.project_members) d.project_access_requests.rows _ s.honoured
          (λ e. absurd (cc)))
  step-Honoured s (settled id by now comment row status located was settles seat grants same) =
      let rows = d.project_access_requests.rows in
      let only = All-unique (λ r. r.access_request_id) (has_key id org) rows s.distinct located in
      let still =
        All-map (Honoured d.project_members) (Honoured d'.project_members) rows
          (λ x h e. roster-OnRoster seat x (h e)) s.honoured in
      let key : row.access_request_id ≡ id =
        ground (arith, find_sound (has_key id org) rows located) in
      rw same (
        All-update
          (λ x.
            (x.access_request_id ≡ row.access_request_id → x ≡ row) × Honoured d'.project_members x)
          (Honoured d'.project_members) (has_id id) (decided status by comment now) rows
          (λ x h hit e.
            subst (OnRoster d'.project_members)
              (sym (h.0 (==-eq x.access_request_id id hit ∙ sym key))) (grants e))
          (λ x h. h.1)
          (All-both (λ x. x.access_request_id ≡ row.access_request_id → x ≡ row)
            (Honoured d'.project_members) rows only still))

  pub step-IsSound : IsSound d → StepOf org d d' → IsSound d'
  step-IsSound s step = record {
    distinct = step-Distinct s step;
    below = step-below s step;
    one_pending = step-one_pending s step;
    one_seat = step-one_seat s step;
    checked = step-Checked s step;
    honoured = step-Honoured s step;
  }
