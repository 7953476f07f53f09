-- ===== src/Dataflow.antt =====
-- HW3: the data-flow graph of a trace, dflow_calc.cpp behind dflow_calc.h.
pub mod Defs
pub mod Api
pub mod Spec
pub mod Collect
pub mod Depth
pub mod Measure
pub mod Analysis
mod Tests
