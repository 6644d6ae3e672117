-- ===== src/CowTree.antt =====
-- obnamlib/fmt_ga: the copy-on-write tree of the chunk indexes (leaf.py, leaf_store.py, cowtree.py).
-- A tree is a list of leaf descriptions and a store that holds the leaves by their identifiers.
pub mod Leaf
pub mod LeafStore
pub mod LeafList
pub mod Tree
pub mod Order
pub mod Edits
pub mod Ends
pub mod Valid
pub mod Middle
pub mod Lookup
pub mod Stores
pub mod InsertOne
pub mod InsertSplit
pub mod Insert
pub mod Contract
