-- ===== src/Users/Switches.antt =====
-- That `create_status` switches the status of an employee.
use ats_onework.Prelude.{
  ℕ, ◌<◌, Bool, true, false, Option, none, some, List, [], ◌∷◌, ◌++◌, ◌≡◌, ◌==◌, refl, ◌∙◌, find,
  update, any, count, count-append, count-of_none, All, Bool-cases, inl, inr, arith,
}
use ats_onework.Exec.{Exec, ok, ◌>>=◌}
use ats_onework.Constants.{EmployeeStatus}
use ats_onework.Schema.{Db, Membership, StatusEntry, set_rows}
use ats_onework.Tenant.{get_membership}
use ats_onework.Audit.{log}
use ats_onework.Users.Statuses.{
  is_open, get_active_status, ended, found_ended, breaks_dates, close_status, new_entry,
  insert_status,
}
use ats_onework.Users.Service.{
  require_org_member, in_status, close_open, open_status, create_status,
}

-- After the UPDATE nothing is open.
find-ended :
    (e now : ℕ) (by : Option ℕ) (rows : List StatusEntry)
    → find (is_open e) (update (is_open e) (ended now by) rows) ≡ none
find-ended e now by [] = refl
find-ended e now by (s ∷ rows) = elim (Bool-cases (is_open e s)) [
  | inl hit ↦ rw hit (ground (arith, find-ended e now by rows))
  | inr miss ↦ rw (miss, miss) (find-ended e now by rows)
]

find-ended_other :
    (e o now : ℕ) (by : Option ℕ) (rows : List StatusEntry)
    → (o == e) ≡ false
    → find (is_open o) (update (is_open e) (ended now by) rows) ≡ find (is_open o) rows
find-ended_other e o now by [] other = refl
find-ended_other e o now by (s ∷ rows) other =
    ground (arith, other, find-ended_other e o now by rows other)

find-append_one :
    (p : StatusEntry → Bool) (rows : List StatusEntry) (r : StatusEntry)
    → p r ≡ true
    → find p rows ≡ none
    → find p (rows ++ r ∷ []) ≡ some r
find-append_one p [] r h e = rw h refl
find-append_one p (x ∷ rows) r h e = elim (Bool-cases (p x)) [
  | inl hit ↦ absurd (ground (arith, hit, e))
  | inr miss ↦ rw miss (find-append_one p rows r h (rw miss at e))
]

find-append_miss :
    (p : StatusEntry → Bool) (rows : List StatusEntry) (r : StatusEntry)
    → p r ≡ false
    → find p (rows ++ r ∷ []) ≡ find p rows
find-append_miss p [] r h = rw h refl
find-append_miss p (x ∷ rows) r h = ground (arith, find-append_miss p rows r h)

-- An open record that started in the past can be ended.
any-breaks :
    (now e : ℕ) (rows : List StatusEntry)
    → All (λ s. is_open e s ≡ true → s.started_at < now) rows
    → any (breaks_dates now e) rows ≡ false
any-breaks now e [] h = refl
any-breaks now e (s ∷ rows) h =
    let rest = any-breaks now e rows h.1 in
    let head = h.0 in
    elim (Bool-cases (is_open e s)) [
      | inl hit ↦ let past = head hit in ground (arith, hit, past, rest)
      | inr miss ↦ ground (arith, miss, rest)
    ]

-- The status log before and after an employee was put in a status by a new record.
pub record Switched (e : ℕ) (s : EmployeeStatus) (row : StatusEntry) (d d' : Db) : Type 0 where
  pub active : get_active_status e d' ≡ some row
  pub status : row.status ≡ s
  pub started : row.started_at ≡ d.now
  pub single : count (is_open e) d'.employee_status.rows ≡ 1
  pub others : (o : ℕ) → (o == e) ≡ false → get_active_status o d' ≡ get_active_status o d

pub SwitchedBy : Exec Db StatusEntry → ℕ → EmployeeStatus → Db → Type 0
SwitchedBy m e s d =
    (row : StatusEntry) × ((d' : Db) × ((m d ≡ (ok row, d')) × Switched e s row d d'))

open_status-Switched :
    (actor org e : ℕ) (s : EmployeeStatus) (closed : Option StatusEntry) (d : Db)
    → get_active_status e d ≡ none
    → SwitchedBy (open_status actor org e s closed) e s d
unfolding SwitchedBy open_status insert_status get_active_status log
open_status-Switched actor org e s closed d free =
    let row = new_entry d.now e s (some actor) d.employee_status.next_id in
    let rows = d.employee_status.rows in
    let mine : is_open e row ≡ true = ground arith in
    (
      row,
      (
        (open_status actor org e s closed d).1,
        (
          rw free refl,
          rw free (record {
            active = find-append_one (is_open e) rows row mine free;
            status = refl;
            started = refl;
            single = ground (
              arith,
              mine,
              count-append (is_open e) rows row,
              count-of_none (is_open e) rows free,
            );
            others = λ o other. find-append_miss (is_open o) rows row (ground (arith, other));
          }),
        ),
      ),
    )

-- Closing what is open, where its end would be after its start.
close_status-eq :
    (e by : ℕ) (d : Db)
    → All (λ x. is_open e x ≡ true → x.started_at < d.now) d.employee_status.rows
    → close_status e (some by) d ≡ (
      ok (found_ended (ended d.now (some by)) (get_active_status e d)),
      record d {
        employee_status =
            set_rows
              (update (is_open e) (ended d.now (some by)) d.employee_status.rows)
              d.employee_status;
      },
    )
unfolding close_status
close_status-eq e by d past = rw (any-breaks d.now e d.employee_status.rows past) refl

close_open-Switched :
    (actor org e : ℕ) (s : EmployeeStatus) (found : Option StatusEntry) (d : Db)
    → get_active_status e d ≡ found
    → All (λ x. is_open e x ≡ true → x.started_at < d.now) d.employee_status.rows
    → SwitchedBy (close_open actor e found >>= λ closed. open_status actor org e s closed) e s d
unfolding SwitchedBy close_open get_active_status
close_open-Switched actor org e s none d free past = open_status-Switched actor org e s none d free
close_open-Switched actor org e s (some a) d found past =
    let rows = d.employee_status.rows in
    let closed = found_ended (ended d.now (some actor)) (get_active_status e d) in
    let d1 : Db = record d {
      employee_status =
          set_rows (update (is_open e) (ended d.now (some actor)) rows) d.employee_status;
    } in
    let (row, (d', (opened, switched))) =
      open_status-Switched actor org e s closed d1 (find-ended e d.now (some actor) rows) in
    (
      row,
      (
        d',
        (
          rw (close_status-eq e actor d past) opened,
          record {
            active = switched.active;
            status = switched.status;
            started = switched.started;
            single = switched.single;
            others = λ o other.
                switched.others o other ∙ find-ended_other e o d.now (some actor) rows other;
          },
        ),
      ),
    )

-- If an employee is a member of the organization and not in the status that is asked for, and the
-- employee's open records were started in the past, then `create_status` returns a new record, which
-- has the status and starts now; it is the one open record of the employee; and everyone else's open
-- record is as it was.
pub create_status_switches :
    (actor org e : ℕ) (s : EmployeeStatus) (d : Db) (m : Membership)
    → get_membership e org d.memberships.rows ≡ some m
    → in_status s (get_active_status e d) ≡ false
    → All (λ x. is_open e x ≡ true → x.started_at < d.now) d.employee_status.rows
    → SwitchedBy (create_status actor org e s) e s d
unfolding create_status require_org_member SwitchedBy
create_status_switches actor org e s d m member other past =
    rw (member, other) (close_open-Switched actor org e s (get_active_status e d) d refl past)
