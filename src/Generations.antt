-- ===== src/Generations.antt =====
-- obnamlib/fmt_ga/client.py: the generations of a client, and the files of a generation.
pub mod AddedFiles
pub mod FileMetadata
pub mod FileKeys
pub mod FileChunks
pub mod Generation
pub mod Client
pub mod ClientFiles
pub mod RemoveGeneration
pub mod Numbers
pub mod KeySets
pub mod Saved
pub mod Commits
pub mod ChunkReads
pub mod ReadAgain
pub mod Removal
pub mod Filled
pub mod Filed
pub mod Stored
