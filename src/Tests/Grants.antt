-- ===== src/Tests/Grants.antt =====
-- The theorems on the access model and on the dependencies of requests at the office.
use ats_onework.Prelude.{String, true, false, Option, some, List, [], ◌∷◌, ◌≡◌, refl, arith}
use ats_onework.Prelude.Text.{text_eq, text_le}
use ats_onework.Schema.{Db}
use ats_onework.Audit.{log}
use ats_onework.Tenant.{require_admin, require_path_admin, require_path_member}
use ats_onework.Permissions.{has_permission, granted_permissions, granted_by_role, granted_directly}
use ats_onework.Dependencies.{
  Payload, CurrentUser, decode_access_token, active_user, get_current_user, with_membership,
  require_membership, holding_any, require_any_permission,
}
use ats_onework.Dependencies.Bearer.{IsBearer}
use ats_onework.Dependencies.Guards.{Authorized, require_any_permission_sound}
use ats_onework.Access.Order.{distinct_texts, sorted_set}
use ats_onework.Access.Repository.{get_role, replace_role_grants, replace_user_grants, names_of}
use ats_onework.Access.Lists.{list_role_grants, list_user_grants, list_member_roles}
use ats_onework.Access.Service.{
  MemberAccessResponse, access_admin, membership_of, replace_grants, replace_direct,
  get_member_access, set_role_grants, set_member_permissions,
}
use ats_onework.Access.Direct.{DirectSet, set_member_permissions_exact}
use ats_onework.Access.Exact.{GrantsSet, set_role_grants_exact}
use ats_onework.Access.Superusers.{
  Request, IsAdministered, run_platform, run_platform-IsAdministered,
}
use ats_onework.Tests.Office.{office, employee}

abbrev chosen : List String
chosen = "expense.create" ∷ "expense.fly" ∷ []

abbrev regranted : Db
regranted = (set_role_grants text_le 2 1 1 chosen false office).1

set_role_grants_exact_example :
    GrantsSet text_le 1 1 chosen ("expense.create" ∷ []) office regranted
unfolding set_role_grants access_admin require_admin require_path_admin require_path_member get_role
    replace_grants replace_role_grants list_role_grants names_of text_eq text_le log
set_role_grants_exact_example =
    set_role_grants_exact text_le 2 1 1 chosen false office ("expense.create" ∷ []) regranted
      ((omega arith, (omega arith, tt)), ((omega arith, tt), (tt, tt))) (refl, tt) refl

-- The first employee holds one capability directly.
abbrev favoured : Db
favoured = record office {
  user_permissions = record { employee_id = 1; permission_id = 1; organization_id = some 1 } ∷ [];
}

abbrev access_of_first : MemberAccessResponse
access_of_first = record {
  employee_id = 1;
  organization_id = 1;
  is_admin = false;
  roles = "employee" ∷ [];
  direct_permissions = "expense.create" ∷ [];
  effective_permissions = "expense.approve" ∷ "expense.create" ∷ [];
}

set_member_permissions_exact_example :
    DirectSet text_le 1 1 chosen
      ("expense.create" ∷ [])
      favoured
      (set_member_permissions text_le 2 1 1 chosen false favoured).1
unfolding set_member_permissions access_admin require_admin require_path_admin require_path_member
    membership_of replace_direct replace_user_grants list_user_grants get_member_access
    list_member_roles sorted_set names_of distinct_texts granted_permissions granted_by_role
    granted_directly text_eq text_le log
set_member_permissions_exact_example =
    set_member_permissions_exact text_le 2 1 1 chosen false favoured access_of_first
      (set_member_permissions text_le 2 1 1 chosen false favoured).1
      ((omega arith, (omega arith, tt)), ((omega arith, tt), (tt, tt))) (refl, tt) refl

-- Every token is the second employee's, who administers the platform.
abbrev token_of : String → Option Payload
token_of token = some (record { type = some "access"; sub = some 2; org = some 1; admin = false })

abbrev governed : Db
governed = record office {
  users = record {
    rows = employee 1 "a@x" ∷ record (employee 2 "b@x") { is_superuser = true } ∷ [];
    next_id = 3;
  };
}

abbrev coup : List Request
coup =
    record { at = 30; credentials = some "t"; employee_id = 1; is_superuser = true }
    ∷ record { at = 31; credentials = some "t"; employee_id = 2; is_superuser = false }
    ∷ record { at = 32; credentials = some "t"; employee_id = 1; is_superuser = false }
    ∷ []

run_platform-IsAdministered_example : IsAdministered (run_platform token_of coup governed)
run_platform-IsAdministered_example = run_platform-IsAdministered token_of coup governed refl

-- The first employee, by the role `employee`.
abbrev token_one : String → Option Payload
token_one token = some (record { type = some "access"; sub = some 1; org = some 1; admin = true })

abbrev first_user : CurrentUser
first_user = record { employee_id = 1; organization_id = 1; is_admin = false; is_superuser = false }

require_any_permission_sound_example :
    Authorized ("expense.approve" ∷ []) first_user office
    × IsBearer token_one (some "t") 1 1
    × (office ≡ office)
unfolding require_any_permission require_membership get_current_user decode_access_token active_user
    with_membership holding_any has_permission granted_permissions granted_by_role granted_directly
    text_eq
require_any_permission_sound_example =
    require_any_permission_sound ("expense.approve" ∷ []) office token_one (some "t") first_user
      office refl
