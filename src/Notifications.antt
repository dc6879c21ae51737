-- ===== src/Notifications.antt =====
-- notifications/repository.py and notifications/service.py.
use ats_onework.Prelude.{
  ℕ, Bool, true, false, Option, none, some, List, length, ◌&&◌, ◌||◌, not, ◌==◌, ltb, find, select,
  update,
}
use ats_onework.Exec.{Exec, Error, ok, pure, raise, gets, ◌>>=◌}
use ats_onework.Schema.{Db, Message, Notification, insert_row, set_rows}
use ats_onework.Paging.{newest}

pub record NotificationCreate : Type 0 where
  pub employee_id : ℕ
  pub title : Message
  pub message : Message
  pub type : Message
  pub reference_id : Option ℕ

abbrev pub notification_row : ℕ → NotificationCreate → ℕ → Notification
notification_row now payload notification_id = record {
  notification_id = notification_id;
  employee_id = payload.employee_id;
  title = payload.title;
  message = payload.message;
  type = payload.type;
  reference_id = payload.reference_id;
  is_read = false;
  created_at = now;
}

unfoldable pub insert : NotificationCreate → Exec Db Notification
insert payload d = (
  ok (notification_row d.now payload d.notifications.next_id),
  record d { notifications = insert_row (notification_row d.now payload) d.notifications },
)

-- `%s IS NULL OR column < %s`
abbrev pub before : Option ℕ → ℕ → Bool
before none id = true
before (some before_id) id = ltb id before_id

unfoldable pub list_for_employee : ℕ → Bool → ℕ → Option ℕ → Exec Db (List Notification)
list_for_employee employee_id unread_only limit before_id = gets λ d.
    newest (λ n. n.notification_id) limit
      (select
        (λ n.
          n.employee_id == employee_id
          && (not unread_only || not n.is_read)
          && before before_id n.notification_id)
        d.notifications.rows)

abbrev is_own : ℕ → ℕ → Notification → Bool
is_own employee_id notification_id n =
    n.notification_id == notification_id && n.employee_id == employee_id

abbrev pub read : Notification → Notification
read n = record n { is_read = true }

-- `UPDATE ... RETURNING` returns the updated row.
unfoldable pub update_read : ℕ → ℕ → Exec Db (Option Notification)
update_read employee_id notification_id d =
    let rows = update (is_own employee_id notification_id) read d.notifications.rows in
    (
      ok (find (is_own employee_id notification_id) rows),
      record d { notifications = set_rows rows d.notifications },
    )

or_not_found : Option Notification → Exec Db (Unit {0})
or_not_found none = raise Error.not_found
or_not_found (some n) = pure tt

unfoldable pub mark_read : ℕ → ℕ → Exec Db (Unit {0})
unfolding update_read or_not_found
mark_read employee_id notification_id = do
  row ← update_read employee_id notification_id
  or_not_found row

abbrev is_unread : ℕ → Notification → Bool
is_unread employee_id n = n.employee_id == employee_id && not n.is_read

-- The number of rows that the UPDATE changed.
unfoldable pub mark_all_read : ℕ → Exec Db ℕ
mark_all_read employee_id d = (
  ok (length (select (is_unread employee_id) d.notifications.rows)),
  record d {
    notifications =
        set_rows (update (is_unread employee_id) read d.notifications.rows) d.notifications;
  },
)
