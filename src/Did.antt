-- ===== src/Did.antt =====
-- crypto/did.py: `did:key` identifiers of Ed25519 public keys, and multibase texts.
pub mod Base58
pub mod Hex
pub mod RoundTrip
pub mod Keys
pub mod Identity
