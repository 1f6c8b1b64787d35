-- ===== src/Hash.antt =====
-- packages/core/src/hash.ts: hex text and the two hash functions.
pub mod Hex
pub mod Keccak
pub mod Sha256
