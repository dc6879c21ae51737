-- ===== src/Organizations.antt =====
-- organizations: organizations and their members.
pub mod Slugs
pub mod SlugForm
pub mod Repository
pub mod Service
pub mod Admins
pub mod History
