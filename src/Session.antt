-- ===== src/Session.antt =====
-- src/session.rs and src/session_backend.rs: sessions of authenticated DIDs.
pub mod Backend
pub mod InMemory
pub mod Store
pub mod Policy
pub mod Capacity
pub mod Lifetime
pub mod Revoked
