-- ===== src/Tests.antt =====
-- Concrete runs: an office, and the theorems at it.
mod Office
mod Requests
mod Sessions
mod Limits
mod Access
mod Grants
mod Members
mod Budgets
mod Statuses
mod Pages
