-- ===== src/Core.antt =====
-- The crate `core`: trie nodes, positions, pages, updates and proofs.
pub mod Trie
pub mod Hasher
pub mod TriePos
pub mod PageId
pub mod Update
pub mod PathProof
pub mod VerifyUpdate
pub mod MultiProof
mod Examples
