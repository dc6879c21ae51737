-- ===== src/Users.antt =====
-- users: the log of the employees' statuses.
pub mod Statuses
pub mod Service
pub mod Switches
