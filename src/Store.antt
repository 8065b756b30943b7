-- ===== src/Store.antt =====
-- The files around the database of the crate `nomt`: nomt/src/store, nomt/src/rollback and
-- nomt/src/seglog.
pub mod SegmentName
pub mod Meta
pub mod Delta
mod Examples
