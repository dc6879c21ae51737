-- ===== src/Expenses/Frame.antt =====
-- The parts of the database that the bookkeeping of a method writes: the audit log, the
-- notifications, the approval history and the receipts. `core` is all the rest.
use ats_onework.Prelude.{ℕ, String, Option, none, some, List, [], ◌∷◌, refl}
use ats_onework.Exec.{Exec}
use ats_onework.Exec.Frame.{Leaves, Leaves-if, leaves_rules}
use ats_onework.Constants.{ApprovalAction}
use ats_onework.Schema.{Piece, Db, Table, Message, Notification, ExpenseMedia}
use ats_onework.Audit.{Values, log}
use ats_onework.Notifications
use ats_onework.Notifications.{NotificationCreate}
use ats_onework.Expenses.Repository.{insert_approval, insert_media}
use ats_onework.Expenses.Response.{
  notify_one, notify_each, notify_admins, load_detail, media_or_list,
}

abbrev blank : {A : Type 0} → Table A
blank = record { rows = []; next_id = 0 }

abbrev pub core : Db → Db
core d = record d {
  expense_approvals = blank;
  expense_media = blank;
  audit_logs = blank;
  notifications = blank;
}

pub log-core :
    (a o : Option ℕ) (action : Message) (t : String) (id : Piece) (old new : Option Values)
    → Leaves core (log a o action t id old new)
unfolding log
log-core a o action t id old new = record { at = λ d. refl }

pub notify-core : (n : NotificationCreate) → Leaves core (Notifications.insert n)
unfolding Notifications.insert
notify-core n = record { at = λ d. refl }

pub insert_approval-core :
    (id org by : ℕ) (a : ApprovalAction) (c : Option String)
    → Leaves core (insert_approval id org by a c)
unfolding insert_approval
insert_approval-core id org by a c = record { at = λ d. refl }

pub insert_media-core :
    (id org : ℕ) (url : String) (c : Option String) → Leaves core (insert_media id org url c)
unfolding insert_media
insert_media-core id org url c = record { at = λ d. refl }

notify_one-core :
    (n : NotificationCreate) (skip : Option ℕ) (a : ℕ) (others : Exec Db (List Notification))
    → Leaves core others
    → Leaves core (notify_one n skip a others)
unfolding notify_one
notify_one-core n skip a others h = search (leaves_rules, notify-core)

notify_each-core :
    (n : NotificationCreate) (skip : Option ℕ) (admins : List ℕ)
    → Leaves core (notify_each n skip admins)
unfolding notify_each
notify_each-core n skip [] = search leaves_rules
notify_each-core n skip (a ∷ rest) = notify_one-core n skip a _ (notify_each-core n skip rest)

pub notify_admins-core :
    (org : ℕ) (n : NotificationCreate) (skip : Option ℕ) → Leaves core (notify_admins org n skip)
unfolding notify_admins
notify_admins-core org n skip = search (leaves_rules, notify_each-core)

media_or_list-core :
    (ms : Option (List ExpenseMedia)) (id org : ℕ) → Leaves core (media_or_list ms id org)
media_or_list-core none id org = search leaves_rules
media_or_list-core (some ms) id org = search leaves_rules

pub load_detail-core :
    (id org : ℕ) (ms : Option (List ExpenseMedia)) → Leaves core (load_detail id org ms)
unfolding load_detail
load_detail-core id org ms = search (leaves_rules, media_or_list-core)

pub ruleset core_rules = (
  leaves_rules, log-core, notify-core, insert_approval-core, insert_media-core, notify_admins-core,
  load_detail-core,
)
