-- ===== src/WebAuthn.antt =====
-- Passkeys: src/webauthn.rs, src/webauthn_policy.rs, src/webauthn_recover.rs, src/webauthn_select.rs,
-- src/webauthn_hint.rs, src/webauthn_store.rs and src/login_challenge.rs.
pub mod Web
pub mod Policy
pub mod Login
pub mod Assertion
pub mod Recover
pub mod Select
pub mod Hint
pub mod Store
pub mod Ceremony
pub mod Options
pub mod SoftPasskey
