-- ===== src/ProjectRequests.antt =====
-- project_requests: a member asks for access to a project, an administrator approves or rejects.
pub mod Repository
pub mod Service
pub mod Step
pub mod Grant
pub mod Decision
pub mod Sound
pub mod Approval
pub mod History
