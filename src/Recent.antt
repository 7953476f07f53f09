-- ===== src/Recent.antt =====
-- HW2/cacheSimShelly.cpp: a simulator of the cache that keeps the order of use of each set as a list.
pub mod Rows
pub mod Accesses
pub mod Uses
pub mod Recency
pub mod Cells
pub mod Grid
pub mod Bring
pub mod Tally
pub mod Counting
pub mod Print
mod Tests
