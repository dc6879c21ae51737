-- ===== src/Lib.antt =====
-- ATS OneWork: the rules of the Python backend under backend/app, with the constraints that
-- backend/migrations puts on its tables.
--
-- The backend serves expense claims to several organizations. A router (not modelled) parses a
-- request and calls one method of a service; the service checks the caller's membership, reads and
-- writes rows through its repository, and leaves an audit row and notifications behind. The whole
-- request is one database transaction, and a method may open a nested one.
--
-- Files:
--   Prelude.antt, Prelude/: names shared by all files. Rows are lists, with `find`, `select`,
--     `update` and `delete` for the WHERE clauses, and the laws of keys that are distinct.
--   Exec.antt: a method is `Exec S A = S → Result A × S`. What was written before a raise is still
--     there until `transaction` (db/transaction.py) takes it back. Frame, Keeps and Inversion hold
--     the rules: what an action leaves alone, what it keeps, and what a result says of its parts.
--   Constants.antt: core/constants.py. Schema.antt: one record for each table of the migrations.
--   Tenant.antt: common/tenant.py. Audit.antt: common/audit.py. Notifications.antt: notifications/.
--   Permissions.antt: common/permissions.py; Permissions/Holds says by the rows of the tables what it
--     means to be a member and to hold a capability. Paging.antt: `ORDER BY id DESC LIMIT n`.
--   Expenses.antt, Expenses/: expenses/repository.py (Repository) and expenses/service.py, by method:
--     Submit, Reads, Review, with their shared parts in Response. Step says what a method may do to
--     the table of expenses, Legal what that means for each expense, Review/Decision and Scope what a
--     method that returns has checked.
--   Reimbursements.antt, Reimbursements/: reimbursements/repository.py and reimbursements/service.py;
--     Step and Paid as above, for both tables.
--   ProjectRequests.antt, ProjectRequests/: project_requests/repository.py and
--     project_requests/service.py. Step and Sound are about the tables, Grant and Decision about a
--     decision, Approval about when an approval returns, History about sequences of requests.
--   Dependencies.antt, Dependencies/: api/v1/deps.py, core/security/jwt.py and the request
--     dependencies of common/permissions.py. Bearer is about the token that a request carries, Guards
--     about what lets it through.
--   Access.antt, Access/: access/repository.py (Repository, Members, Lists, Catalog with the install
--     functions of migration 0009) and access/service.py (Service for one organization, Platform for
--     the catalogue and the super administrators). Grants, Inserts, Links, Exact and Direct are about
--     the tables of grants, Superusers about who administers the platform.
--   Organizations.antt, Organizations/: organizations/repository.py, organizations/service.py and
--     `slugify` of common/utils.py (Slugs, SlugForm). Admins and History are about administrators.
--   Uploads.antt, Uploads/: expenses/uploads.py. Budgets.antt, Budgets/: budgets/repository.py and
--     budgets/service.py, with Dates about the window of a month, Rewrites and Changes about updates.
--   Users.antt, Users/: the status log of users/repository.py (Statuses) and users/service.py
--     (Service), with Switches about its changes.
--   Portal.antt, Portal/: sequences of the writing requests on expenses and reimbursements.
--   Auth.antt, Auth/: auth/repository.py, auth/service.py and core/security. Connection is the
--     request's connection with its explicit commit, Sessions are sequences of requests, Family and
--     Replay are about families of refresh tokens, Password about passwords,
--     Issued about the tokens of a sign-in.
--   RateLimit.antt, RateLimit/: core/rate_limit.py.
--   Tests.antt, Tests/: a small database, and the theorems at it.
--
-- Conventions:
--   Exceptions are kept by class (core/exceptions.py), their texts are dropped. Every method that
--   writes returns what the source returns; a response is its rows. Texts that the source formats
--   are lists of pieces, so that a number in them stays a number.
--   CURRENT_TIMESTAMP and ist_now_naive() are one clock, fixed for a request, in seconds. Amounts
--   are hundredths, dates are day numbers.
--   A method that the source writes as one function is cut where a row has been locked or written:
--   `decide` calls `decide_row`, which calls `record_decision`, and likewise for the others.
--   Loops are structural recursion on the rows they go over, so there is no fuel.
--   The triggers validate_expense_org_consistency and validate_expense_status_transition, the CHECK
--   constraints on amounts and UNIQUE (expense_id), (email), (token_hash) stand in the repositories.
--   hashlib, pwdlib, secrets, gen_random_uuid, str.lower and the lifetime of a refresh token are the
--   parameters `Libraries` and `Draw`; an access token is its claims. jwt.decode is the parameter
--   `jwt_decode`, datetime.date is `first_day`, and the collation by which ORDER BY sorts names is
--   `collates`.
--
-- Not modelled: foreign keys (but for the cascade from memberships to their roles) and column
-- lengths, gaps of a sequence after a rollback, concurrency between requests (a locked row makes them
-- take turns), routers, object storage, projects, expense types, the profile and the directory of
-- users, the audit log's reader, analytics, scripts, and the client under lib.
mod Prelude
pub mod Exec
pub mod Constants
pub mod Schema
pub mod Tenant
pub mod Audit
pub mod Notifications
pub mod Permissions
pub mod Paging
pub mod Expenses
pub mod Reimbursements
pub mod ProjectRequests
pub mod Dependencies
pub mod Access
pub mod Organizations
pub mod Uploads
pub mod Users
pub mod Budgets
pub mod Portal
pub mod Auth
pub mod RateLimit
mod Tests
