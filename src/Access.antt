-- ===== src/Access.antt =====
-- access: the capabilities, roles and grants of an organization, and the platform's catalogue.
pub mod Order
pub mod Repository
pub mod Members
pub mod Lists
pub mod Catalog
pub mod Service
pub mod Platform
pub mod Inserts
pub mod Grants
pub mod Links
pub mod Exact
pub mod Superusers
pub mod Direct
