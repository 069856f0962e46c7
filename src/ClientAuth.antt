-- ===== src/ClientAuth.antt =====
-- src/client_auth.rs: the credentials of API clients. Base64, JSON, SHA-256 and the user store are
-- parameters, as are the readers of secrets and IP addresses and the metadata of a certificate.
pub mod Config
pub mod Tokens
pub mod Decisions
pub mod Comparison
pub mod Confirmed
pub mod Genuine
pub mod Capacity
mod Tests
