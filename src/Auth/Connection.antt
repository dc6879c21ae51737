-- ===== src/Auth/Connection.antt =====
-- db/connection.py: one request is one transaction of its connection, which `conn.commit()` cuts.
use ats_onework.Prelude.{ℕ}
use ats_onework.Exec.{Exec, Result, ok, err}
use ats_onework.Schema.{Db}

-- What is durable, and what the open transaction sees.
pub record Conn : Type 0 where
  pub committed : Db
  pub current : Db

abbrev pub lift_result : {A : Type 0} → Db → Result A × Db → Result A × Conn
lift_result saved (r, d) = (r, record { committed = saved; current = d })

-- Statements of the open transaction.
abbrev pub on_current : {A : Type 0} → Exec Db A → Exec Conn A
on_current m c = lift_result c.committed (m c.current)

-- `conn.commit()`
abbrev pub commit : Exec Conn (Unit {0})
commit c = (ok tt, record { committed = c.current; current = c.current })

-- The end of `pool.connection()`: commit, or roll back if an exception leaves the block.
abbrev pub finish : {A : Type 0} → Result A × Conn → Result A × Db
finish (ok a, c) = (ok a, c.current)
finish (err e, c) = (err e, c.committed)

-- A request on a connection whose clock reads `now`.
unfoldable pub request : {A : Type 0} → ℕ → Exec Conn A → Exec Db A
request now m d =
    let start = record d { now = now } in finish (m (record { committed = start; current = start }))
