-- ===== src/Trees.antt =====
-- obnamlib/fmt_ga/tree.py: the tree of directory objects.
pub mod Paths
pub mod Tree
pub mod Views
pub mod Contents
pub mod Inside
pub mod Parents
pub mod Sets
pub mod Removals
pub mod Immutable
pub mod Entries
pub mod Fixup
pub mod Flush
pub mod Links
pub mod Reached
