-- ===== src/HttpSig.antt =====
-- src/http_sig: RFC 9421 request signatures.
pub mod Errors
pub mod Replay
pub mod Fields
pub mod Base
pub mod Sign
pub mod Verify
