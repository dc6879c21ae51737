-- ===== src/Expenses.antt =====
-- The expense module: backend/app/expenses.
pub mod Repository
pub mod Response
pub mod Frame
pub mod Step
pub mod Legal
pub mod Submit
pub mod Reads
pub mod Review
pub mod Scope
pub mod Listing
