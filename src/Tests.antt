-- ===== src/Tests.antt =====
-- Runs on concrete inputs: each theorem of the library applied where its hypotheses hold.
pub mod Samples
pub mod Identities
pub mod Nonces
pub mod Keys
pub mod Networks
pub mod Fetches
pub mod Sessions
pub mod Sources
pub mod Detections
pub mod Ingestions
pub mod Discoveries
