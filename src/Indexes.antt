-- ===== src/Indexes.antt =====
-- obnamlib/fmt_ga/indexes.py: `GAChunkIndexes`.
pub mod KeyMap
pub mod Indexes
pub mod Puts
pub mod Removal
pub mod Histories
