-- ===== src/Crypto.antt =====
-- identity/crypto/: signed requests, their nonces and their keys.
pub mod ContentDigest
pub mod DigestMatch
pub mod DirectoryResponse
pub mod Discovery
pub mod AgentCard
pub mod Replay
pub mod Keys
pub mod Components
pub mod SignatureAgent
pub mod Checks
pub mod Reports
pub mod WebBotAuth
