-- ===== src/Codec.antt =====
-- The byte-level code: hex, varints and Merkle proofs, storage keys, bech32 addresses.
pub mod Hex
pub mod Concat
pub mod Varint
pub mod Merkle
pub mod Bech32
pub mod Key
