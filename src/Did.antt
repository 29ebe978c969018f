-- ===== src/Did.antt =====
-- DIDs, from their text to the authenticated principal.
pub mod Parse
pub mod Key
pub mod MlDsa
pub mod Aqua
pub mod Peer
pub mod Suite
pub mod Method
pub mod Format
pub mod Principal
pub mod Possession
pub mod Agreement
