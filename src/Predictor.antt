-- ===== src/Predictor.antt =====
-- HW1: the two-level branch predictor of bp.cpp, behind bp_api.h, and the trace loop of bp_main.c.
pub mod Fsm
pub mod Btb
pub mod Api
pub mod Counters
pub mod Shift
pub mod Tables
pub mod Valid
pub mod Step
pub mod Prediction
pub mod After
pub mod Outcomes
pub mod Training
pub mod Stats
pub mod Locality
pub mod Run
pub mod Program
mod Tests
