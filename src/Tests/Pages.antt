-- ===== src/Tests/Pages.antt =====
-- The theorem on lists at the office.
use ats_onework.Prelude.{◌≤◌, none, some, List, [], ◌≡◌, refl, length, All}
use ats_onework.Exec.{Result, ok, err}
use ats_onework.Schema.{Membership}
use ats_onework.Tenant.{get_membership, require_member, require_path_member}
use ats_onework.Permissions.{has_permission}
use ats_onework.Expenses.Repository.{JoinedExpense}
use ats_onework.Expenses.Reads.{list_expenses}
use ats_onework.Expenses.Listing.{Visible, list_expenses-scope}
use ats_onework.Tests.Office.{office}

abbrev items_of : Result (List JoinedExpense) → List JoinedExpense
items_of (ok items) = items
items_of (err e) = []

-- The first two of the employee's expenses.
abbrev page : List JoinedExpense
page = items_of (list_expenses 1 1 none none none 2 none office).0

paged : list_expenses 1 1 none none none 2 none office ≡ (ok page, office)
unfolding list_expenses require_member require_path_member
paged = refl

list_expenses-scope_example :
    (office ≡ office)
    × ((m : Membership) × (get_membership 1 1 office.memberships.rows ≡ some m))
    × (length page ≤ 2)
    × All
        (λ (j : JoinedExpense).
          Visible 1 1 (has_permission 1 1 "expense.read_all" office) j.expense)
        page
list_expenses-scope_example = list_expenses-scope 1 1 2 none none none none office office page paged
