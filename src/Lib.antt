-- ===== src/Lib.antt =====
-- Models and theorems of the four simulators of the repository: a two-level branch predictor (HW1),
-- a two-level cache (HW2), a data-flow analyser (HW3) and a multithreaded core (HW4). The four
-- programs share no code; each has its own part here.
--
-- Base: comparisons, arrays, 32-bit words and signed numbers, and the do blocks of results that may
-- fail. `none` stands for an access outside an array, through a pointer that is not set, or a run
-- that is out of fuel; each file says which. An unsigned int is a number with its wrap-around
-- written out by `u32`, `shl32` and `sub32`; an int is the number of its 32-bit pattern where it is
-- mixed with unsigned numbers, or counts up. Base.Doubles adds doubles that are whole numbers: the
-- sum is rounded to 53 significant bits, ties to even.
--
-- Predictor: HW1/bp.cpp behind HW1/bp_api.h. Predictor.Fsm has the state machine, its table and the
-- history register; Predictor.Btb the branch target buffer with `getSharedHistory`, `getTag`,
-- `getEntryByIndex`, `update` and `predict`; Predictor.Api the statistics, `BP_init` and the trace
-- loop of HW1/bp_main.c on parsed lines; Predictor.Program is `main` past the parsing. The values
-- that the constructors leave unset are the record `Raw`. An update prints the buffer: the field
-- `dump` of a report is the buffer that is printed, its format is not modelled. A buffer is well
-- formed (Predictor.Valid.IsValid) when its sizes are powers of two that fit a word and its tables
-- and registers are in range.
--
-- Dataflow: HW3/dflow_calc.cpp behind HW3/dflow_calc.h. Dataflow.Defs has the loops of `InitData`
-- and the recursion `getDepthRecursive`, on fuel: the number of instructions and one more, which is
-- enough since an instruction depends on earlier ones only. Dataflow.Api has the functions of the
-- header, Dataflow.Spec what they are about: last writers, dependencies, chains and their lengths.
-- A program (Dataflow.Spec.IsProgram) has its opcodes and registers in range and a sum of latencies
-- that fits an int.
--
-- Core: HW4/core_api.cpp and the memory of HW4/sim_api.c. Core.Memory has the data and instruction
-- memory, Core.Machine the threads and `EXECUTE_inst`, Core.Schedule the loops of blocked and of
-- fine-grained multithreading, on fuel. An access outside the registers, the data or the program of
-- a thread is `none`. Core.Search and Core.Switch are about the switch of threads, Core.Dispatch,
-- Core.Execute and Core.Retire about an execution, Core.Sound has the invariant of the rounds
-- (halted threads are counted, every other thread returns within the latency), over the lines left
-- and the halted threads of Core.Work. Core.Reach has the states that a loop goes through and the
-- ways in which it ends; Core.Start the first state and the bounds on cycles and rounds,
-- Core.Blocked and Core.Turns the ends of the two loops, Core.Finegrained and Core.Fair single
-- rounds and turns of the second. The fuel is a number of rounds: each line takes one, and the
-- waiting for the next line as many as the latency and the number of threads allow.
--
-- Cache: HW2/cacheSim.cpp. Cache.Level has a level with the search for a block and for a victim,
-- Cache.Ops the two levels with reads and writes, Cache.Program `main`, with `atoi` and the
-- splitting of a line as parameters. Pointers to entries are way numbers, the set being that of the
-- address. Cache.Entries and Cache.Blocks are about the change of one entry and about sets, tags
-- and blocks; Cache.Valid says when a level is in good order, Cache.Present which blocks it holds,
-- and Cache.Inclusion when the blocks of L1 are in L2; Cache.Fetch, Cache.Invalidate and Cache.Fill
-- are about the fetch of a block, Cache.Accesses and Cache.Stores about the reads and writes, with
-- their results in Cache.Outcome, Cache.Run about the loop of `main`, Cache.Initial about the new
-- cache, Cache.Again about reads in a row. A new level is `none` where `pow(2, n)` is no unsigned
-- int, or it has no sets.
--
-- Ranked: HW2/cacheSimRoy.cpp, another simulator of the same cache. Ranked.Ways has the ways of a
-- set and their ranks (`UpdateLRU`, `UpdateLRUforEvac`, `InsertToSlot`, `getLRU`, `create_mask`),
-- Ranked.Levels the two levels (`InsertToL1`, `InsertToL2`), Ranked.Accesses the new cache and the
-- loop of `main` on parsed lines. A new cache is `none` where `pow(2, n)` is no unsigned int, a
-- level has no sets, or more than an int counts.
--
-- Recent: HW2/cacheSimShelly.cpp, a third simulator of the cache, whose sets keep the order of use
-- as a list. Recent.Rows has the class `Cache`, Recent.Accesses the class `Memory` and the loop of
-- `main` on parsed lines. The variable that `changeToX` may leave unset is the parameter `unset`. A
-- size is `pow(2, n)` as an unsigned int, a conversion that is undefined (`none`) from `n` = 32 on.
-- Recent.Uses and Recent.Recency are about the order of use, Recent.Cells, Recent.Grid and
-- Recent.Bring about accesses inside the vectors, Recent.Tally, Recent.Counting and Recent.Print
-- about the counters and what is printed.
--
-- HW2/cacheSimShellyold.cpp is the same as HW2/cacheSimRoy.cpp but for a blank line.
--
-- Not modelled: printing, destructors, and the parsing of the traces of HW1 and HW3 and of the
-- images of HW4. Allocation that fails is a Boolean argument.
pub mod Base
pub mod Predictor
pub mod Dataflow
pub mod Cache
pub mod Core
pub mod Ranked
pub mod Recent
