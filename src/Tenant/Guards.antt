-- ===== src/Tenant/Guards.antt =====
-- The guards change nothing, and what they let through.
use ats_onework.Prelude.{ℕ, true, Option, none, some, ◌≡◌, arith, Bool-cases, inl, inr}
use ats_onework.Exec.{ok}
use ats_onework.Exec.Frame.{Leaves, leaves_rules}
use ats_onework.Schema.{Db, Membership}
use ats_onework.Tenant.{
  get_membership, require_path_member, require_path_admin, require_member, require_admin,
}

module _ {T : Type 0} (part : Db → T) where
  path_member-Leaves : (m : Option Membership) → Leaves part (require_path_member m)
  unfolding require_path_member
  path_member-Leaves none = search leaves_rules
  path_member-Leaves (some m) = search leaves_rules

  path_admin-Leaves : (m : Option Membership) → Leaves part (require_path_admin m)
  unfolding require_path_admin
  path_admin-Leaves none = search leaves_rules
  path_admin-Leaves (some m) = search leaves_rules

  pub require_member-Leaves : (employee org : ℕ) → Leaves part (require_member employee org)
  unfolding require_member
  require_member-Leaves employee org = search (leaves_rules, path_member-Leaves)

  pub require_admin-Leaves : (employee org : ℕ) → Leaves part (require_admin employee org)
  unfolding require_admin
  require_admin-Leaves employee org = search (leaves_rules, path_admin-Leaves)

admin-eq-ok :
    (found : Option Membership) (d : Db) {m : Membership} {d' : Db}
    → (require_path_admin found) d ≡ (ok m, d')
    → (found ≡ some m) × (m.is_admin ≡ true) × (d' ≡ d)
unfolding require_path_admin require_path_member
admin-eq-ok none d h = cc
admin-eq-ok (some m) d h = elim (Bool-cases m.is_admin) [
  | inl e ↦ ground (arith, e)
  | inr e ↦ ground (arith, e)
]

-- The guard of an administrator passes only an administrator, and changes nothing.
pub require_admin-eq-ok :
    (actor org : ℕ) (d : Db) {m : Membership} {d' : Db}
    → require_admin actor org d ≡ (ok m, d')
    → (get_membership actor org d.memberships.rows ≡ some m) × (m.is_admin ≡ true) × (d' ≡ d)
unfolding require_admin
require_admin-eq-ok actor org d h = admin-eq-ok (get_membership actor org d.memberships.rows) d h

-- The guard of a member passes only a member, and changes nothing.
pub require_member-eq-ok :
    (employee org : ℕ) (d : Db) {m : Membership} {d' : Db}
    → require_member employee org d ≡ (ok m, d')
    → (get_membership employee org d.memberships.rows ≡ some m) × (d' ≡ d)
unfolding require_member require_path_member
require_member-eq-ok employee org d h = ground arith
