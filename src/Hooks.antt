-- ===== src/Hooks.antt =====
-- obnamlib/hooks.py: callbacks by priority, and the filters of repository data.
pub mod Hook
pub mod Filters
pub mod Manager
pub mod RoundTrip
