-- ===== src/Features.antt =====
-- features/: what is derived from the requests of one client.
pub mod Session
