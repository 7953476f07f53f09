-- ===== src/Core.antt =====
-- HW4: the multithreaded core core_api.cpp over the memory simulator sim_api.c.
pub mod Memory
pub mod Machine
pub mod Schedule
pub mod RoundTrip
pub mod Search
pub mod Switch
pub mod Dispatch
pub mod Execute
pub mod Retire
pub mod Work
pub mod Sound
pub mod Reach
pub mod Blocked
pub mod Start
pub mod Finegrained
pub mod Turns
pub mod Fair
mod Tests
