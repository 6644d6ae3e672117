-- ===== src/ForgetPolicy.antt =====
-- obnamlib/forget_policy.py: the policy of --keep.
pub mod Parse
pub mod Syntax
pub mod Match
pub mod Kept
