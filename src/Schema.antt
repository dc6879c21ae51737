-- ===== src/Schema.antt =====
-- The rows of the tables (backend/migrations) and the database that a request reads and writes.
-- A name in a table stands for its column; columns that no modelled code reads are left out.
use ats_onework.Prelude.{ℕ, suc, String, Bool, Option, List, [], ◌∷◌, ◌++◌}
use ats_onework.Constants.{
  AccountStatus, EmployeeStatus, TokenPurpose, ExpenseStatus, ApprovalAction, ReimbursementStatus,
  ProjectAccessStatus,
}

-- A text that the code builds by an f-string, as its parts in order; `num n` is `str(n)`.
pub data Piece : Type 0 where
  lit : String → Piece
  num : ℕ → Piece

abbrev pub Message : Type 0
Message = List Piece

-- A value of the JSON objects in the audit log; `decimal` is the text of an amount in hundredths.
pub data AuditValue : Type 0 where
  null : AuditValue
  text : Message → AuditValue
  number decimal : ℕ → AuditValue
  flag : Bool → AuditValue
  names : List String → AuditValue

pub record User : Type 0 where
  pub employee_id : ℕ
  pub name : String
  pub email : String
  pub password_hash : String
  pub account_status : AccountStatus
  pub is_superuser : Bool
  pub last_login_at : Option ℕ

pub record Organization : Type 0 where
  pub organization_id : ℕ
  pub name : String
  pub slug : String
  pub description : Option String
  pub is_system : Bool
  pub is_active : Bool

pub record Membership : Type 0 where
  pub membership_id : ℕ
  pub employee_id : ℕ
  pub organization_id : ℕ
  pub is_admin : Bool

pub record Role : Type 0 where
  pub role_id : ℕ
  pub name : String
  pub organization_id : ℕ
  pub description : Option String
  pub is_active : Bool

pub record Permission : Type 0 where
  pub permission_id : ℕ
  pub api_name : String
  pub organization_id : ℕ
  pub is_global : Bool
  pub description : Option String

pub record MembershipRole : Type 0 where
  pub membership_id : ℕ
  pub role_id : ℕ
  pub organization_id : ℕ

pub record RolePermission : Type 0 where
  pub role_id : ℕ
  pub permission_id : ℕ
  pub organization_id : ℕ

-- A grant that is older than the column has no organization.
pub record UserPermission : Type 0 where
  pub employee_id : ℕ
  pub permission_id : ℕ
  pub organization_id : Option ℕ

pub record CatalogEntry : Type 0 where
  pub catalog_id : ℕ
  pub kind : String
  pub name : String
  pub description : Option String
  pub grants : List String

-- A row of employee_status.
pub record StatusEntry : Type 0 where
  pub status_id : ℕ
  pub employee_id : ℕ
  pub status : EmployeeStatus
  pub started_at : ℕ
  pub ended_at : Option ℕ
  pub updated_by : Option ℕ

pub record ExpenseType : Type 0 where
  pub expense_type_id : ℕ
  pub name : String
  pub organization_id : ℕ
  pub requires_receipt : Bool
  pub default_limit : Option ℕ

pub record Budget : Type 0 where
  pub budget_id : ℕ
  pub amount : ℕ
  pub employee_id : ℕ
  pub organization_id : ℕ
  pub start_date : ℕ
  pub end_date : ℕ

pub record Project : Type 0 where
  pub project_id : ℕ
  pub budget_id : ℕ
  pub name : String

pub record ProjectMember : Type 0 where
  pub project_member_id : ℕ
  pub project_id : ℕ
  pub organization_id : ℕ
  pub employee_id : ℕ
  pub role_id : ℕ

pub record Expense : Type 0 where
  pub expense_id : ℕ
  pub employee_id : ℕ
  pub project_id : ℕ
  pub organization_id : ℕ
  pub expense_type_id : ℕ
  pub amount : ℕ
  pub status : ExpenseStatus
  pub rejection_reason : Option String
  pub description : Option String
  pub expense_date : ℕ
  pub submission_date : ℕ
  pub updated_at : ℕ
  pub info_message : Option String
  pub info_requested_at : Option ℕ
  pub info_response : Option String

pub record ExpenseApproval : Type 0 where
  pub approval_id : ℕ
  pub expense_id : ℕ
  pub organization_id : ℕ
  pub actioned_by : ℕ
  pub action : ApprovalAction
  pub comments : Option String
  pub actioned_at : ℕ

pub record ExpenseMedia : Type 0 where
  pub media_id : ℕ
  pub expense_id : ℕ
  pub organization_id : ℕ
  pub receipt_url : String
  pub description : Option String
  pub uploaded_at : ℕ

pub record Reimbursement : Type 0 where
  pub reimbursement_id : ℕ
  pub expense_id : ℕ
  pub employee_id : ℕ
  pub organization_id : ℕ
  pub total_amount : ℕ
  pub payment_reference : Option String
  pub payment_receipt_url : Option String
  pub status : ReimbursementStatus
  pub paid_at : Option ℕ
  pub created_at : ℕ
  pub updated_at : ℕ

pub record AuditLog : Type 0 where
  pub log_id : ℕ
  pub actor_id : Option ℕ
  pub organization_id : Option ℕ
  pub action : Message
  pub table_name : String
  pub record_id : Piece
  pub old_values : Option (List (String × AuditValue))
  pub new_values : Option (List (String × AuditValue))
  pub created_at : ℕ

pub record Notification : Type 0 where
  pub notification_id : ℕ
  pub employee_id : ℕ
  pub title : Message
  pub message : Message
  pub type : Message
  pub reference_id : Option ℕ
  pub is_read : Bool
  pub created_at : ℕ

pub record ProjectAccessRequest : Type 0 where
  pub access_request_id : ℕ
  pub project_id : ℕ
  pub employee_id : ℕ
  pub organization_id : ℕ
  pub status : ProjectAccessStatus
  pub decided_by : Option ℕ
  pub decision_comment : Option String
  pub requested_at : ℕ
  pub decided_at : Option ℕ
  pub updated_at : ℕ

pub record AuthenticationToken : Type 0 where
  pub token_id : ℕ
  pub employee_id : ℕ
  pub token_hash : String
  pub purpose : TokenPurpose
  pub expires_at : ℕ
  pub created_at : ℕ
  pub family_id : ℕ
  pub replaced_by_token_id : Option ℕ
  pub revoked_at : Option ℕ

pub record RateLimitBucket : Type 0 where
  pub bucket_key : String
  pub window_start : ℕ
  pub hits : ℕ

-- A table whose key comes from an identity column: its rows, and the next value of the sequence.
pub record Table {ℓ} (A : Type ℓ) : Type ℓ where
  pub rows : List A
  pub next_id : ℕ

module _ {ℓ} {A : Type ℓ} where
  -- INSERT: the row is built from its new key
  abbrev pub insert_row : (ℕ → A) → Table A → Table A
  insert_row row t = record { rows = t.rows ++ row t.next_id ∷ []; next_id = suc t.next_id }

  abbrev pub set_rows : List A → Table A → Table A
  set_rows rows t = record { rows = rows; next_id = t.next_id }

-- `now` is the time at which the request runs, in seconds: CURRENT_TIMESTAMP and `ist_now_naive()`.
pub record Db : Type 0 where
  pub now : ℕ
  pub users : Table User
  pub organizations : Table Organization
  pub memberships : Table Membership
  pub roles : Table Role
  pub permissions : Table Permission
  pub membership_roles : List MembershipRole
  pub role_permissions : List RolePermission
  pub user_permissions : List UserPermission
  pub access_catalog : Table CatalogEntry
  pub employee_status : Table StatusEntry
  pub expense_types : List ExpenseType
  pub budgets : Table Budget
  pub projects : List Project
  pub project_members : Table ProjectMember
  pub expenses : Table Expense
  pub expense_approvals : Table ExpenseApproval
  pub expense_media : Table ExpenseMedia
  pub reimbursements : Table Reimbursement
  pub audit_logs : Table AuditLog
  pub notifications : Table Notification
  pub project_access_requests : Table ProjectAccessRequest
  pub authentication_tokens : Table AuthenticationToken
  pub rate_limit_buckets : List RateLimitBucket
