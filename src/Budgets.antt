-- ===== src/Budgets.antt =====
-- budgets: budgets of an organization and what is spent of them.
pub mod Repository
pub mod Service
pub mod Dates
pub mod Rewrites
pub mod Changes
