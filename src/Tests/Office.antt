-- ===== src/Tests/Office.antt =====
-- A small database: two organizations, three employees, three expenses and a family of tokens.
use ats_onework.Prelude.{ℕ, String, Bool, true, false, Option, none, some, [], ◌∷◌, arith}
use ats_onework.Constants.{AccountStatus, TokenPurpose, ExpenseStatus}
use ats_onework.Schema.{
  Db, User, Organization, Membership, Role, Permission, Expense, AuthenticationToken,
}
use ats_onework.Auth.Libraries.{Libraries, Draw}
use ats_onework.Reimbursements.Paid.{IsSound}

abbrev pub employee : ℕ → String → User
employee id email = record {
  employee_id = id;
  name = "n";
  email = email;
  password_hash = "secret-1";
  account_status = AccountStatus.active;
  is_superuser = false;
  last_login_at = none;
}

abbrev pub member : ℕ → ℕ → ℕ → Bool → Membership
member id who org admin = record {
  membership_id = id;
  employee_id = who;
  organization_id = org;
  is_admin = admin;
}

abbrev organization : ℕ → String → Organization
organization id slug = record {
  organization_id = id;
  name = slug;
  slug = slug;
  description = none;
  is_system = false;
  is_active = true;
}

abbrev role : ℕ → String → ℕ → Role
role id name org = record {
  role_id = id;
  name = name;
  organization_id = org;
  description = none;
  is_active = true;
}

abbrev permission : ℕ → String → ℕ → Permission
permission id name org = record {
  permission_id = id;
  api_name = name;
  organization_id = org;
  is_global = true;
  description = none;
}

abbrev pub expense : ℕ → ExpenseStatus → Expense
expense id status = record {
  expense_id = id;
  employee_id = 1;
  project_id = 1;
  organization_id = 1;
  expense_type_id = 1;
  amount = 2500;
  status = status;
  rejection_reason = none;
  description = none;
  expense_date = 10;
  submission_date = 10;
  updated_at = 10;
  info_message = none;
  info_requested_at = none;
  info_response = none;
}

abbrev pub token : ℕ → String → Option ℕ → Option ℕ → AuthenticationToken
token id hash replaced revoked = record {
  token_id = id;
  employee_id = 1;
  token_hash = hash;
  purpose = TokenPurpose.refresh;
  expires_at = 1000;
  created_at = 0;
  family_id = 7;
  replaced_by_token_id = replaced;
  revoked_at = revoked;
}

abbrev pub office : Db
office = record {
  now = 20;
  users = record {
    rows = employee 1 "a@x" ∷ employee 2 "b@x" ∷ employee 3 "c@x" ∷ [];
    next_id = 4;
  };
  organizations = record { rows = organization 1 "o" ∷ organization 2 "p" ∷ []; next_id = 3 };
  memberships = record {
    rows = member 1 1 1 false ∷ member 2 2 1 true ∷ member 3 3 2 true ∷ [];
    next_id = 4;
  };
  roles = record { rows = role 1 "employee" 1 ∷ role 2 "admin" 1 ∷ []; next_id = 3 };
  permissions = record {
    rows =
        permission 1 "expense.approve" 1
        ∷ permission 2 "expense.create" 1
        ∷ permission 3 "expense.approve" 2
        ∷ [];
    next_id = 4;
  };
  membership_roles = record { membership_id = 1; role_id = 1; organization_id = 1 } ∷ [];
  role_permissions = record { role_id = 1; permission_id = 1; organization_id = 1 } ∷ [];
  user_permissions = [];
  access_catalog = record { rows = []; next_id = 1 };
  employee_status = record { rows = []; next_id = 1 };
  expense_types =
      record {
        expense_type_id = 1;
        name = "t";
        organization_id = 1;
        requires_receipt = false;
        default_limit = none;
      }
      ∷ [];
  budgets = record {
    rows =
        record {
          budget_id = 1;
          amount = 90000;
          employee_id = 1;
          organization_id = 1;
          start_date = 0;
          end_date = 99;
        }
        ∷ [];
    next_id = 2;
  };
  projects = record { project_id = 1; budget_id = 1; name = "p" } ∷ [];
  project_members = record { rows = []; next_id = 1 };
  expenses = record {
    rows =
        expense 1 ExpenseStatus.pending
        ∷ expense 2 ExpenseStatus.rejected
        ∷ expense 3 ExpenseStatus.approved
        ∷ [];
    next_id = 4;
  };
  expense_approvals = record { rows = []; next_id = 1 };
  expense_media = record { rows = []; next_id = 1 };
  reimbursements = record { rows = []; next_id = 1 };
  audit_logs = record { rows = []; next_id = 1 };
  notifications = record { rows = []; next_id = 1 };
  project_access_requests = record { rows = []; next_id = 1 };
  authentication_tokens = record {
    rows = token 1 "r1" (some 2) none ∷ token 2 "r2" (some 3) none ∷ token 3 "r3" none none ∷ [];
    next_id = 4;
  };
  rate_limit_buckets = [];
}

-- The same, after the family was revoked.
abbrev pub revoked_office : Db
revoked_office = record office {
  authentication_tokens = record {
    rows =
        token 1 "r1" (some 2) (some 9)
        ∷ token 2 "r2" (some 3) (some 9)
        ∷ token 3 "r3" none (some 9)
        ∷ [];
    next_id = 4;
  };
}

pub office-IsSound : IsSound office
office-IsSound = record {
  keyed = record {
    distinct = ((omega arith, (omega arith, tt)), ((omega arith, tt), (tt, tt)));
    below = (omega arith, (omega arith, (omega arith, tt)));
  };
  distinct = tt;
  below = tt;
  single = tt;
  settled = tt;
}

-- Every password is right, and no hash is one way.
abbrev pub open_libraries : Libraries
open_libraries = record {
  hash_token = λ s. s;
  hash_password = λ s. s;
  verify_and_update_password = λ password hash. (true, none);
  lower = λ s. s;
  refresh_token_lifetime = 100;
}

abbrev pub draw : Draw
draw = record { token = "fresh"; family_id = 8 }
