-- ===== src/Reimbursements.antt =====
-- The reimbursement module: backend/app/reimbursements.
pub mod Repository
pub mod Step
pub mod Service
pub mod Paid
