-- ===== src/Pending.antt =====
-- Small maps of the package: chunks that wait to be indexed, and the choice of files.
pub mod TokenMap
pub mod Excluder
