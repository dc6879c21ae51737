-- ===== src/ProjectRequests/History.antt =====
-- Sequences of the writing requests of project_requests/router.py, each in one transaction
-- (db/connection.py: `get_connection`), and what they do to the tables.
use ats_onework.Prelude.{
  ℕ, String, Option, none, some, List, [], ◌∷◌, ◌≡◌, ◌≢◌, refl, sym, ap, subst, ◌∙◌, arith, find,
  find_sound, find-append_some, find-update-some, find_unique, ==-eq, inl, inr, Bool-cases,
}
use ats_onework.Exec.{Exec, Result, ok, transaction}
use ats_onework.Exec.Inversion.{transaction_cases, guard_cases}
use ats_onework.Constants.{ProjectAccessStatus}
use ats_onework.Schema.{Db, ProjectAccessRequest}
use ats_onework.Tenant.{require_member}
use ats_onework.Tenant.Guards.{require_member-Leaves}
use ats_onework.Expenses.Repository.{get_project_org}
use ats_onework.ProjectRequests.Repository.{has_id, has_key, decided}
use ats_onework.ProjectRequests.Service.{
  insert_request, request_in, request_access, approve, reject,
}
use ats_onework.ProjectRequests.Step.{unchanged, asked, settled, StepOf, insert_request-Step}
use ats_onework.ProjectRequests.Decision.{decide-Step}
use ats_onework.ProjectRequests.Sound.{IsSound, step-IsSound}

-- A service method with the arguments it takes after the actor.
pub data Call : Type 0 where
  ask_access : (project_id : ℕ) → Call
  approve_access reject_access : (request_id : ℕ) (comment : Option String) → Call

unfoldable pub dispatch : ℕ → Call → Exec Db ProjectAccessRequest
dispatch actor (ask_access project_id) = request_access actor project_id
dispatch actor (approve_access request_id comment) = approve actor request_id comment
dispatch actor (reject_access request_id comment) = reject actor request_id comment

pub record Request : Type 0 where
  pub at : ℕ
  pub actor : ℕ
  pub call : Call

abbrev at_time : ℕ → Db → Db
at_time t d = record d { now = t }

-- One request: its writes are committed if it returns, and rolled back if it raises.
unfoldable pub serve : Request → Db → Result ProjectAccessRequest × Db
serve r d = transaction (dispatch r.actor r.call) (at_time r.at d)

unfoldable pub run_access : List Request → Db → Db
run_access [] d = d
run_access (r ∷ rest) d = run_access rest (serve r d).1

-- Some organization's step.
abbrev Stepped : Db → Db → Type 0
Stepped d d' = (org : ℕ) × StepOf org d d'

request_in-Step :
    (employee project : ℕ) (found : Option ℕ) (d : Db)
    → Stepped d (request_in employee project found d).1
unfolding request_in
request_in-Step employee project none d = (0, unchanged refl refl)
request_in-Step employee project (some org) d =
    let body = insert_request employee project org in
    let idle : Stepped d d = (org, unchanged refl refl) in
    guard_cases (Stepped d) (require_member employee org) (λ _. transaction body) d
      (require_member-Leaves (λ s. s) employee org) idle
      (λ _. transaction_cases (Stepped d) body d idle (λ a s' h.
        subst (Stepped d) (ap (λ x. x.1) h) (org, insert_request-Step employee project org d)))

-- A request that returns is a step.
dispatch-Step :
    (actor : ℕ) (call : Call) (d d' : Db) (r : ProjectAccessRequest)
    → dispatch actor call d ≡ (ok r, d')
    → Stepped d d'
unfolding dispatch request_access approve reject
dispatch-Step actor (ask_access project) d d' r h =
    subst (Stepped d) (ap (λ x. x.1) h)
      (request_in-Step actor project (get_project_org project d) d)
dispatch-Step actor (approve_access id comment) d d' r h =
    decide-Step actor id ProjectAccessStatus.approved comment d d' r h
dispatch-Step actor (reject_access id comment) d d' r h =
    decide-Step actor id ProjectAccessStatus.rejected comment d d' r h

serve-Step : (r : Request) (d : Db) → Stepped (at_time r.at d) (serve r d).1
unfolding serve
serve-Step r d =
    transaction_cases (Stepped (at_time r.at d)) (dispatch r.actor r.call) (at_time r.at d)
      (0, unchanged refl refl) (λ a s' h. dispatch-Step r.actor r.call (at_time r.at d) s' a h)

at_time-IsSound : (t : ℕ) {d : Db} → IsSound d → IsSound (at_time t d)
at_time-IsSound t s = record {
  distinct = s.distinct;
  below = s.below;
  one_pending = s.one_pending;
  one_seat = s.one_seat;
  checked = s.checked;
  honoured = s.honoured;
}

serve-IsSound : (r : Request) (d : Db) → IsSound d → IsSound (serve r d).1
serve-IsSound r d s =
    let (org, step) = serve-Step r d in
    step-IsSound org (at_time r.at d) (serve r d).1 (at_time-IsSound r.at s) step

-- In sound tables, any sequence of asking, approving and rejecting keeps the tables sound: keys are
-- distinct and below their sequence, an employee has at most one pending request and one seat for a
-- project, a request is decided exactly when it is no longer pending, and the employee of an
-- approved request is a member of the project.
pub run_access-IsSound : (rs : List Request) (d : Db) → IsSound d → IsSound (run_access rs d)
unfolding run_access
run_access-IsSound [] d s = s
run_access-IsSound (r ∷ rest) d s = run_access-IsSound rest (serve r d).1 (serve-IsSound r d s)

-- A decided request is left alone by a step.
step-decided :
    (org : ℕ) (d d' : Db) (k : ℕ) (e : ProjectAccessRequest)
    → IsSound d
    → StepOf org d d'
    → e.status ≢ ProjectAccessStatus.pending
    → find (has_id k) d.project_access_requests.rows ≡ some e
    → find (has_id k) d'.project_access_requests.rows ≡ some e
step-decided org d d' k e s (unchanged same _) done found = rw same found
step-decided org d d' k e s (asked now who p free same _) done found =
    rw same (find-append_some (has_id k) d.project_access_requests.rows _ found)
step-decided org d d' k e s
      (settled id by now comment row status located was settles seat grants same) done found =
    let rows = d.project_access_requests.rows in
    let after =
      find-update-some (has_id k) (has_id id) (decided status by comment now) rows (λ x. refl)
        found in
    let key : row.access_request_id ≡ id =
      ground (arith, find_sound (has_key id org) rows located) in
    elim (Bool-cases (has_id id e)) [
      | inr other ↦ rw same (rw other at after)
      | inl hit ↦
          let one =
            find_unique (λ r. r.access_request_id) (has_key id org) (has_id k) rows s.distinct
              located found (key ∙ sym (==-eq e.access_request_id id hit)) in
          absurd (done (subst (λ x. x.status ≡ ProjectAccessStatus.pending) one was))
    ]

-- In sound tables, a request that was approved or rejected stays as it is, whatever the requests.
pub run_access-IsFinal :
    (rs : List Request) (d : Db) (k : ℕ) (e : ProjectAccessRequest)
    → IsSound d
    → e.status ≢ ProjectAccessStatus.pending
    → find (has_id k) d.project_access_requests.rows ≡ some e
    → find (has_id k) (run_access rs d).project_access_requests.rows ≡ some e
unfolding run_access
run_access-IsFinal [] d k e s done found = found
run_access-IsFinal (r ∷ rest) d k e s done found =
    let (org, step) = serve-Step r d in
    let after =
      step-decided org (at_time r.at d) (serve r d).1 k e (at_time-IsSound r.at s) step done
        found in
    run_access-IsFinal rest (serve r d).1 k e (serve-IsSound r d s) done after
