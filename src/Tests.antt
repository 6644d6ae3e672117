-- ===== src/Tests.antt =====
-- The theorems of this library at concrete inputs, and runs of the modelled code.
mod CowTree
mod Bag
mod Indexes
mod ForgetPolicy
mod LockManager
mod Hooks
mod Directories
mod Clients
mod Pending
mod Trees
mod Flush
mod Generations
