-- ===== src/Bag.antt =====
-- obnamlib/bag.py, blob_store.py and fmt_ga/chunk_store.py: blobs are collected in bags, which a bag
-- store keeps.
pub mod ObjectId
pub mod Bag
pub mod Ids
pub mod BlobCache
pub mod BlobStore
pub mod Reads
pub mod Flush
pub mod Writes
pub mod ChunkStore
