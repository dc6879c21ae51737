-- ===== src/Expenses/Response.antt =====
-- expenses/service.py: the response of every method, and what several methods share. The classes
-- of the exceptions are kept, their texts not.
use ats_onework.Prelude.{
  ℕ, String, Bool, false, Option, none, some, List, [], ◌∷◌, ◌==◌, if◌then◌else◌,
}
use ats_onework.Exec.{Exec, Error, pure, gets, or_raise, ◌>>=◌}
use ats_onework.Schema.{Db, ExpenseMedia, Notification, AuditValue, lit, null, text}
use ats_onework.Notifications
use ats_onework.Notifications.{NotificationCreate}
use ats_onework.Expenses.Repository.{JoinedExpense, get_by_id, list_admin_ids, list_media}

-- The expense with its names and receipts.
pub record ExpenseResponse : Type 0 where
  pub row : JoinedExpense
  pub open row use *
  pub receipts : List ExpenseMedia

-- `str | None` as a JSON value
abbrev pub text_or_null : Option String → AuditValue
text_or_null none = null
text_or_null (some s) = text (lit s ∷ [])

abbrev pub same_org : Option ℕ → ℕ → Bool
same_org none org_id = false
same_org (some o) org_id = o == org_id

-- The body of the loop over the administrators, before the rounds that follow it. It returns the
-- rows that are appended to `created_notifications`.
unfoldable pub notify_one :
    NotificationCreate → Option ℕ → ℕ → Exec Db (List Notification) → Exec Db (List Notification)
notify_one notification skip admin_id others = if same_org skip admin_id then others else do
  row ← Notifications.insert (record notification { employee_id = admin_id })
  created ← others
  pure (row ∷ created)

unfoldable pub notify_each : NotificationCreate → Option ℕ → List ℕ → Exec Db (List Notification)
unfolding notify_one
notify_each notification skip [] = pure []
notify_each notification skip (admin_id ∷ rest) =
    notify_one notification skip admin_id (notify_each notification skip rest)

unfoldable pub notify_admins : ℕ → NotificationCreate → Option ℕ → Exec Db (List Notification)
unfolding notify_each
notify_admins organization_id notification skip = do
  admins ← gets (list_admin_ids organization_id)
  notify_each notification skip admins

abbrev pub media_or_list : Option (List ExpenseMedia) → ℕ → ℕ → Exec Db (List ExpenseMedia)
media_or_list (some media_rows) expense_id organization_id = pure media_rows
media_or_list none expense_id organization_id = gets (list_media expense_id organization_id)

unfoldable pub load_detail : ℕ → ℕ → Option (List ExpenseMedia) → Exec Db ExpenseResponse
load_detail expense_id organization_id media_rows = do
  found ← gets (get_by_id expense_id organization_id)
  row ← or_raise found Error.not_found
  media ← media_or_list media_rows expense_id organization_id
  pure (record { row = row; receipts = media })
