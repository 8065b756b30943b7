-- ===== src/Bitbox.antt =====
-- nomt/src/bitbox: the hash table of pages on disk.
pub mod MetaMap
pub mod Probe
pub mod Wal
pub mod Recover
mod Examples
