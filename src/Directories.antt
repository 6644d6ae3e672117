-- ===== src/Directories.antt =====
-- obnamlib/fmt_ga/dirobj.py: directory objects, and the keys of obnamlib/repo_interface.py.
pub mod Directory
pub mod Changes
pub mod Keys
