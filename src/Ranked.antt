-- ===== src/Ranked.antt =====
-- HW2/cacheSimRoy.cpp: another simulator of the two-level cache, which keeps the blocks of a set ranked
-- by their last use instead of a clock.
pub mod Ways
pub mod Levels
pub mod Accesses
pub mod Masks
pub mod Ranks
mod Tests
