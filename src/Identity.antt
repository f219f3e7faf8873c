-- ===== src/Identity.antt =====
-- identity/: evidence of independent verification mechanisms, and how it is resolved.
pub mod Profiles
pub mod Evidence
pub mod Context
pub mod Resolver
pub mod Manager
