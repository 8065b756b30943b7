-- ===== src/Merkle.antt =====
-- The page tree of the crate `nomt`: nomt/src/page_region.rs and nomt/src/page_diff.rs.
pub mod PageRegion
pub mod PageDiff
mod Examples
