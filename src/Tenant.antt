-- ===== src/Tenant.antt =====
-- common/tenant.py, and the `get_membership` that every repository spells the same way.
pub mod Guards
use ats_onework.Prelude.{ℕ, Option, none, some, List, ◌&&◌, not, find, ◌==◌}
use ats_onework.Exec.{Exec, Error, pure, raise, gets, ◌>>=◌, ◌>>◌, raise_if}
use ats_onework.Schema.{Membership, Db}

abbrev pub get_membership : ℕ → ℕ → List Membership → Option Membership
get_membership employee_id org_id =
    find (λ m. m.employee_id == employee_id && m.organization_id == org_id)

unfoldable pub require_path_member : Option Membership → Exec Db Membership
require_path_member none = raise Error.not_found
require_path_member (some membership) = pure membership

unfoldable pub require_path_admin : Option Membership → Exec Db Membership
unfolding require_path_member
require_path_admin found = do
  membership ← require_path_member found
  raise_if (not membership.is_admin) Error.authorization
  pure membership

-- The `_require_member` and `_require_admin` of the services.
unfoldable pub require_member : ℕ → ℕ → Exec Db Membership
unfolding require_path_member
require_member employee_id org_id = do
  found ← gets (λ d. get_membership employee_id org_id d.memberships.rows)
  require_path_member found

unfoldable pub require_admin : ℕ → ℕ → Exec Db Membership
unfolding require_path_admin
require_admin employee_id org_id = do
  found ← gets (λ d. get_membership employee_id org_id d.memberships.rows)
  require_path_admin found
