-- ===== src/Cache.antt =====
-- HW2: the cache simulator cacheSim.cpp, two levels that write back.
pub mod Level
pub mod Ops
pub mod Ways
pub mod Search
pub mod Entries
pub mod Blocks
pub mod Valid
pub mod Present
pub mod Fetch
pub mod Invalidate
pub mod Fill
pub mod Accesses
pub mod Stores
pub mod Outcome
pub mod Run
pub mod Initial
pub mod Inclusion
pub mod Program
pub mod Arguments
pub mod Again
mod Tests
mod RunTests
