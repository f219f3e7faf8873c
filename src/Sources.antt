-- ===== src/Sources.antt =====
-- identity/sources/: external identity documents, their provenance and their cache.
pub mod Documents
pub mod Exchange
pub mod Records
pub mod Trust
pub mod Cache
pub mod Service
pub mod Fetcher
