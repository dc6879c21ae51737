-- ===== src/Audit.antt =====
-- common/audit.py: `AuditService.log`. The key of the changed row is a piece of
-- text: `num n` where the source writes `str(n)`.
use ats_onework.Prelude.{ℕ, String, Option, List}
use ats_onework.Exec.{Exec, modify}
use ats_onework.Schema.{Db, Piece, Message, AuditValue, insert_row}

abbrev pub Values : Type 0
Values = List (String × AuditValue)

unfoldable pub log :
    Option ℕ
    → Option ℕ
    → Message
    → String
    → Piece
    → Option Values
    → Option Values
    → Exec Db (Unit {0})
log actor_id organization_id action table_name record_id old_values new_values = modify λ d.
    record d {
      audit_logs =
          insert_row
            (λ log_id. record {
              log_id = log_id;
              actor_id = actor_id;
              organization_id = organization_id;
              action = action;
              table_name = table_name;
              record_id = record_id;
              old_values = old_values;
              new_values = new_values;
              created_at = d.now;
            })
            d.audit_logs;
    }
