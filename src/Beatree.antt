-- ===== src/Beatree.antt =====
-- The B-tree of the crate `nomt`: nomt/src/beatree.
pub mod FreeList
pub mod BitOps
mod Examples
