-- ===== src/Reimbursements/Paid.antt =====
-- Which tables of expenses and reimbursements are sound, and the steps between them.
use ats_onework.Prelude.{
  ℕ, ◌<◌, true, ◌≡◌, sym, subst, ◌∙◌, inl, inr, Distinct, Fresh, Distinct-update, Distinct-append,
  Distinct-append-Fresh, Fresh-of_none, below-append, below-update, arith, All, All-map, All-both,
  All-update, All-append_one, All-unique, ==-eq,
}
use ats_onework.Constants.{ExpenseStatus, ReimbursementStatus, expense_transitions}
use ats_onework.Schema.{Db, Table, Expense, Reimbursement}
use ats_onework.Expenses.Step.{ExpenseStep}
use ats_onework.Expenses.Legal.{IsKeyed, Step-Tracked, Step-IsKeyed}
use ats_onework.Reimbursements.Repository.{has_id}
use ats_onework.Reimbursements.Step.{
  IsReimbursed, ReimbursementStep, unchanged, inserted, moved, annotated, PayStep,
}

-- A reimbursement that is paid stands for an expense that is reimbursed.
abbrev pub Settled : Table Expense → Reimbursement → Type 0
Settled es r = r.status ≡ ReimbursementStatus.paid → IsReimbursed es r.expense_id

-- Primary keys are distinct, an expense has at most one reimbursement, and paid ones are settled.
pub record IsSound (d : Db) : Type 0 where
  pub keyed : IsKeyed d.expenses
  pub distinct : Distinct (λ r. r.reimbursement_id) d.reimbursements.rows
  pub below : All (λ r. r.reimbursement_id < d.reimbursements.next_id) d.reimbursements.rows
  pub single : Distinct (λ r. r.expense_id) d.reimbursements.rows
  pub settled : All (Settled d.expenses) d.reimbursements.rows

reimbursed-final :
    (s t : ExpenseStatus)
    → s ≡ ExpenseStatus.reimbursed
    → expense_transitions s t ≡ true
    → t ≡ ExpenseStatus.reimbursed
unfolding expense_transitions
reimbursed-final s t e h = ground (arith, e)

-- A reimbursed expense stays reimbursed.
IsReimbursed-kept :
    {org : ℕ} {es es' : Table Expense} (k : ℕ)
    → IsKeyed es
    → ExpenseStep org es es'
    → IsReimbursed es k
    → IsReimbursed es' k
IsReimbursed-kept k keyed step (e, found, done) =
    let after = Step-Tracked keyed step k e found in
    (
      after.0,
      after.1,
      elim after.2.legal [
        | inl same ↦ same ∙ done
        | inr legal ↦ reimbursed-final e.status after.0.status done legal
      ],
    )

pending-Settled :
    (es : Table Expense) (r : Reimbursement) → r.status ≡ ReimbursementStatus.pending → Settled es r
pending-Settled es r new paid = absurd (cc)

module _ {org : ℕ} {d : Db} {es : Table Expense} {rs : Table Reimbursement} where
  step-Distinct :
      IsSound d → ReimbursementStep org d es rs → Distinct (λ r. r.reimbursement_id) rs.rows
  step-Distinct sound (unchanged same) = rw same sound.distinct
  step-Distinct sound (inserted row k key own new pays free same) = rw same (
      Distinct-append (λ r. r.reimbursement_id) d.reimbursements.next_id d.reimbursements.rows _
        sound.distinct sound.below (key d.reimbursements.next_id))
  step-Distinct sound (moved q f row s located here terms new legal paid same) = rw same (
      Distinct-update (λ r. r.reimbursement_id) (has_id row.reimbursement_id) f
        d.reimbursements.rows (λ x. (terms x).reimbursement_id) sound.distinct)
  step-Distinct sound (annotated q f row located here terms new same) = rw same (
      Distinct-update (λ r. r.reimbursement_id) (has_id row.reimbursement_id) f
        d.reimbursements.rows (λ x. (terms x).reimbursement_id) sound.distinct)

  step-below :
      IsSound d → ReimbursementStep org d es rs → All (λ r. r.reimbursement_id < rs.next_id) rs.rows
  step-below sound (unchanged same) = rw same sound.below
  step-below sound (inserted row k key own new pays free same) = rw same (
      below-append (λ r. r.reimbursement_id) d.reimbursements.next_id d.reimbursements.rows _
        sound.below (key d.reimbursements.next_id))
  step-below sound (moved q f row s located here terms new legal paid same) = rw same (
      below-update (λ r. r.reimbursement_id) d.reimbursements.next_id (has_id row.reimbursement_id)
        f d.reimbursements.rows (λ x. (terms x).reimbursement_id) sound.below)
  step-below sound (annotated q f row located here terms new same) = rw same (
      below-update (λ r. r.reimbursement_id) d.reimbursements.next_id (has_id row.reimbursement_id)
        f d.reimbursements.rows (λ x. (terms x).reimbursement_id) sound.below)

  step-single : IsSound d → ReimbursementStep org d es rs → Distinct (λ r. r.expense_id) rs.rows
  step-single sound (unchanged same) = rw same sound.single
  step-single sound (inserted row k key own new pays free same) =
      let next = d.reimbursements.next_id in
      let rows = d.reimbursements.rows in
      let fresh = Fresh-of_none (λ r. r.expense_id) k rows free in
      rw same (
        Distinct-append-Fresh (λ r. r.expense_id) rows (row next) sound.single
          (subst (λ n. Fresh (λ r. r.expense_id) n rows) (sym (own next)) fresh))
  step-single sound (moved q f row s located here terms new legal paid same) = rw same (
      Distinct-update (λ r. r.expense_id) (has_id row.reimbursement_id) f d.reimbursements.rows
        (λ x. (terms x).expense_id) sound.single)
  step-single sound (annotated q f row located here terms new same) = rw same (
      Distinct-update (λ r. r.expense_id) (has_id row.reimbursement_id) f d.reimbursements.rows
        (λ x. (terms x).expense_id) sound.single)

  step-Settled :
      IsSound d
      → ReimbursementStep org d es rs
      → All (Settled es) d.reimbursements.rows
      → All (Settled es) rs.rows
  step-Settled sound (unchanged same) all = rw same all
  step-Settled sound (inserted row k key own new pays free same) all = rw same (
      All-append_one (Settled es) d.reimbursements.rows _ all
        (pending-Settled es (row d.reimbursements.next_id) (new d.reimbursements.next_id)))
  step-Settled sound (annotated q f row located here terms new same) all = rw same (
      All-update (Settled es) (Settled es) (has_id row.reimbursement_id) f d.reimbursements.rows
        (λ x h _ paid. subst (IsReimbursed es) (sym (terms x).expense_id) (h (sym (new x) ∙ paid)))
        (λ x h. h) all)
  step-Settled sound (moved q f row s located here terms new legal paid same) all =
      let only =
        All-unique (λ r. r.reimbursement_id) q d.reimbursements.rows sound.distinct located in
      rw same (
        All-update (λ x. (x.reimbursement_id ≡ row.reimbursement_id → x ≡ row) × Settled es x)
          (Settled es) (has_id row.reimbursement_id) f d.reimbursements.rows
          (λ x h hit done.
            let this : x ≡ row = h.0 (==-eq x.reimbursement_id row.reimbursement_id hit) in
            subst (IsReimbursed es)
              (subst (λ y. row.expense_id ≡ (f y).expense_id) (sym this)
                (sym (terms row).expense_id))
              (paid (sym (new x) ∙ done)))
          (λ x h. h.1)
          (All-both (λ x. x.reimbursement_id ≡ row.reimbursement_id → x ≡ row) (Settled es)
            d.reimbursements.rows only all))

pub PayStep-IsSound : {org : ℕ} {d d' : Db} → IsSound d → PayStep org d d' → IsSound d'
PayStep-IsSound {d} {d'} sound step = record {
  keyed = Step-IsKeyed sound.keyed step.expenses;
  distinct = step-Distinct sound step.reimbursements;
  below = step-below sound step.reimbursements;
  single = step-single sound step.reimbursements;
  settled = step-Settled sound step.reimbursements (
      All-map (Settled d.expenses) (Settled d'.expenses) d.reimbursements.rows
        (λ r h paid. IsReimbursed-kept r.expense_id sound.keyed step.expenses (h paid))
        sound.settled);
}
