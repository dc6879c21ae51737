-- ===== src/Auth.antt =====
-- The authentication module: backend/app/auth and the parts of backend/app/core/security and
-- backend/app/db/connection.py that it stands on.
pub mod Libraries
pub mod Connection
pub mod Repository
pub mod Service
pub mod Family
pub mod Sessions
pub mod Replay
pub mod Issued
pub mod Password
