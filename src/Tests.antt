-- ===== src/Tests.antt =====
-- The theorems at concrete inputs.
mod Locks
mod LockRoot
mod Paths
mod Trees
mod Fake
mod Headers
mod Files
mod Conditions
mod Handlers
mod Puts
mod Requests
