-- ===== src/LockManager.antt =====
-- obnamlib/lockmgr.py: `LockManager`, over any file system with lock files.
pub mod Locks
pub mod Locking
pub mod Unlocking
pub mod Outcome
