-- ===== src/Lib.antt =====
-- Verification of aqua-auth: sign-in with decentralised identifiers (DIDs), the stores behind it, and
-- the guard against replayed HTTP signatures.
--
-- The program. A client asks for a challenge (src/challenge.rs), whose message src/message.rs builds
-- from the DID's method (src/did_method.rs), signs it, and sends it back. The verifiers of the methods
-- did:pkh, did:key, did:peer and did:aqua check the signature (src/pkh, src/key, src/peer, src/aqua),
-- and src/principal.rs turns the verdict into a principal. src/session.rs then opens a session in a
-- backend (src/session_backend.rs). A request may also carry an HTTP message signature, whose nonce
-- src/http_sig/replay.rs remembers; src/http_sig/base.rs builds what sign.rs signs and verify.rs verifies.
-- A passkey logs in by an assertion that src/webauthn_recover.rs checks against a policy
-- (src/webauthn_policy.rs) and turns into two candidate keys, among which src/webauthn_select.rs
-- chooses, helped by the cookie of src/webauthn_hint.rs. src/webauthn_ceremony.rs registers passkeys and
-- src/webauthn_store.rs keeps them. src/client.rs is the other side of the first flow: it signs a
-- challenge only when it is bound to its DID and to the origin that it dialed. The reference server of
-- aqua-auth-testkit/src/lib.rs puts the stores behind HTTP handlers, and aqua-auth-directory/src renders
-- the documents that advertise a service's keys. aqua-auth-testkit/src/conformance judges a server by
-- its answers.
--
-- The files. A type of the source has its name here, and so has a function, in snake_case.
--   Prelude          shared names, lists, results, Boolean tests and the integers
--   Text             String and str as lists of code points, with the methods that are used
--   Table            DashMap as an association list; Table/Bounded is a map of bounded size
--   Env              the functions of other crates, as parameters
--   Errors           src/crypto_error.rs, src/auth_error.rs
--   Did/Parse        src/did.rs                     Did/Key     src/key
--   Did/Peer         src/peer/mod.rs                Did/Suite   src/cipher_suite.rs, the suites
--   Did/Aqua         src/aqua/codec.rs              Did/MlDsa   src/aqua/ml_dsa.rs
--   Did/Method       src/did_method.rs, the methods of the registry, the entry points of src/lib.rs;
--                    Did/Method/Display  their display_label and has_chain_id
--   Did/Format       src/did_format.rs              Did/Principal  src/principal.rs
--   Message          src/message.rs                 Challenge   src/challenge.rs
--   Session/Backend  the trait of src/session_backend.rs as an interface with laws
--   Session/InMemory its default backend            Session/Store  src/session.rs
--   HttpSig          src/http_sig: Errors, Replay, Base, Sign and Verify; Fields is the crate `sfv`
--   WebAuthn/Web     what the passkey code calls of other crates, as parameters
--   WebAuthn/Policy  src/webauthn_policy.rs         WebAuthn/Login  src/login_challenge.rs
--   WebAuthn/Assertion  src/webauthn.rs             WebAuthn/Recover  src/webauthn_recover.rs
--   WebAuthn/Select  src/webauthn_select.rs         WebAuthn/Hint  src/webauthn_hint.rs
--   WebAuthn/Store   src/webauthn_store.rs          WebAuthn/Options  src/webauthn_options.rs
--   WebAuthn/SoftPasskey  src/webauthn_testkit.rs, a passkey in software
--   WebAuthn/Ceremony  src/webauthn_ceremony.rs, with the crate webauthn-rs as a parameter;
--                    WebAuthn/Ceremony/Builder is its build_webauthn
--   Client           src/client.rs, src/wire.rs and the trait of src/signer.rs; Client/AuthSession
--                    is its session, Client/LocalKey  src/local_key.rs
--   Directory        aqua-auth-directory/src: lib.rs, render.rs and thumbprint.rs
--   Peer             the reference server of aqua-auth-testkit/src/lib.rs: its state and handlers;
--                    Peer/Router  its routes, one request after another
--   Conformance      aqua-auth-testkit/src/conformance: mod.rs and http.rs; Conformance/Cases and
--                    Conformance/Refused  cases of cases_nonce_and_did.rs and cases_signature.rs
--   Tests            runs on small inputs, with simple functions for the other crates'
-- The modules Did/Possession, Did/Agreement, Did/MlDsa/Hints, Challenge/Capacity, Challenge/SingleUse, Session/Policy,
-- Session/Capacity, Session/Lifetime, Session/Revoked, HttpSig/Replay/Once, HttpSig/Verify/Accepted,
-- HttpSig/Verify/Request, HttpSig/Sign/RoundTrip, WebAuthn/Policy/Built, WebAuthn/Assertion/Accepted,
-- WebAuthn/Recover/Accepted, WebAuthn/Select/Proven, WebAuthn/Select/Canonical, WebAuthn/Hint/RoundTrip,
-- WebAuthn/Store/Runs, WebAuthn/Ceremony/Bound, Client/Binding, Client/Flow, Client/Calls, Client/Served, Directory/Rendered, Directory/Cache,
-- WebAuthn/SoftPasskey/Laws, WebAuthn/SoftPasskey/Accepted, Peer/Handled, Peer/Login, Peer/Once, Peer/Served, Peer/Signed, Conformance/Gate, Conformance/Verdicts,
-- Conformance/Reference, Conformance/Refusals and Conformance/Malformed prove properties.
--
-- State. A method that takes `&self` and changes a map takes the store and returns the new one beside
-- its result. Clock readings and random bytes are arguments, one for each time the source reads them.
-- Calls of a store are taken one after the other. The client's
-- calls go out to a world of any type: each takes the world and returns the new one. The order in which
-- a map is walked is that of the list, so the properties hold for any order. A sum of u64 is taken modulo
-- 2 ^ 64. A place of the source that can panic returns `none`, but for the sum of a date and a duration,
-- which is chrono's, and for the two slices of hint_encoding_is_canonical at constant offsets, which the
-- fixed length of its argument admits. Every loop is over a list; only the print of a decimal number
-- takes fuel, its value and one, which is more than its digits.
--
-- Not modelled: the parsers and printers of JSON, which serde derives; the extraction of an HTTP request
-- by axum and the socket of the reference server; the signers of the test kit, and the conformance cases
-- of the expiry, of the origin and of cases_wire.rs; the texts and the rendering of a report; logging,
-- and the timers that call the sweeps.
pub mod Prelude
pub mod Text
pub mod Table
pub mod Env
pub mod Errors
pub mod Did
pub mod Message
pub mod Challenge
pub mod Session
pub mod HttpSig
pub mod WebAuthn
pub mod Client
pub mod Directory
pub mod Peer
pub mod Conformance
mod Tests
