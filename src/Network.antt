-- ===== src/Network.antt =====
-- identity/network/: evidence from the source address of a request.
pub mod Ranges
pub mod Formats
pub mod Official
pub mod Fcrdns
