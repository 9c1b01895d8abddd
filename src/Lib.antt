-- ===== src/Lib.antt =====
-- mipt_mips: a model of the core of the MIPT-MIPS simulator, with its theorems.
--
-- The program simulates MIPS and RISC-V machines. A functional simulator fetches an instruction,
-- reads its sources from the register file, executes it in the ALU, lets the memory load or store,
-- writes the destinations back and moves the program counter. A performance simulator runs the same
-- instructions through clocked units that talk over ports, with caches and a branch predictor.
--
-- Paths are those of the repository, below simulator/.
--   Prelude: tests, lists, the digits of a number, and words of `w` bits, for all modules.
--   Macro: infra/macro.h. A template over an unsigned type is a function of its width `w`.
--   Endian: infra/endian.h. Arrays of bytes are lists, the first byte at the lowest address.
--   Ports: infra/ports/port_queue/port_queue.h over infra/arena.h; a place of the arena without an
--     object holds `none`. Ports/Fifo relates it to a list, Ports/Runs to runs of operations.
--     Ports/Clocked is infra/ports/ports.h; an entry of the queue is a value with its cycle.
--   Replacement: infra/replacement/cache_replacement.cpp, `LRU` in Lru and `PseudoLRU` in PseudoLru.
--   TagArray: infra/cache/cache_tag_array.cpp. The hash map of sparsehash and the replacement policy
--     are records of operations and laws; the laws of the hash map are those of its documentation,
--     for keys that are not the two reserved ones. TagArray/LruPolicy fills the policy by `LRU`.
--   BranchPredictor: modules/fetch/bpu/bpentry.h.
--   Bpu: modules/fetch/bpu/bpu.cpp over the tag array and a record for the class of entries.
--   Bypass: modules/decode/bypass: an entry of the scoreboard in Bypass, the unit in Bypass/Unit. A
--     latency of the long unit from 2 to 253 keeps its stages apart from those of the memory.
--   Riscv: risc_v/riscv_decoder.h. Riscv/Places reads the digits of an immediate off an expression,
--     so that Riscv/Immediates compares each format with its layout by computation.
--     The list of the CSRs, of a generated header, is a parameter.
--     risc_v/riscv_instr.cpp is in Riscv/Executors, Riscv/Tables and Riscv/Construct; the words and
--     masks of the opcodes, of a generated header, are a function of the names.
--   Mips: mips/mips_instr_decode.h and mips/mips_register/mips_register.h; the tables, the choice of
--     an entry and the constructors of mips/mips_instr.cpp are in Mips/Tables, Mips/Dispatch and
--     Mips/Construct, the masks of mips/mips_version.h in Mips/Version. An unordered map is a list of
--     rows; an entry has no executor, which has the name of the entry.
--   Trap: func_sim/traps. The RISC-V causes come from a generated header and are parameters.
--   Operation: func_sim/operation.h, the fields and predicates that the other parts use.
--   Alu: func_sim/alu.h and func_sim/alu_primitives.h; one function per operation, on the data path.
--   Multiplication: func_sim/multiplication.h.
--   RegisterFile: func_sim/rf/rf.h. The state is the list of registers; `none` is the exception of
--     `at`. What the class asks of a register type is the record `RegisterClass`.
--   FuncSim: func_sim/func_sim.cpp, the program counters with the delay slots, and the NOP counter.
--     FuncSim/Machine has the step and the run, over records for the memory, the instructions and the
--     instruction memory, and functions for the kernel and the driver; kernel/kernel.cpp asks the
--     kernel a hundred times at most.
--     FuncSim/Drivers has mips/mips_driver.cpp, risc_v/riscv_driver.cpp and
--     func_sim/driver/driver.cpp over that machine.
--   InstrCache: infra/instrcache/instr_cache.h over the storage of Ports and the LRU policy, and
--     func_sim/instr_memory.h in InstrCache/InstrMemory. A reference to no object is `none`.
--   Memory: memory/plain_memory.cpp and memory/hierarchied_memory.cpp; `none` is the exception.
--     Memory/Access has the typed accesses of memory/memory.h over either.
--   Pipeline: modules/decode, modules/execute, modules/mem and modules/branch, a function of what the
--     ports give in a cycle for each clock; Pipeline/Prediction is about the checks of the decode and
--     the branch stage together, Pipeline/Flushes about the long unit.
--   Tests: the theorems at concrete inputs.
--
-- Loops over arrays are recursion on the list or on the number of rounds left. The walk up and down
-- the tree of `PseudoLRU` runs on fuel: one more than the index of the first node on the way up, and
-- one more than the number of nodes on the way down; the theorems on victims show that it is enough.
-- The clean-up of a port has the number of its entries as fuel, which is enough for its theorems.
-- `strlen` of the hierarchied memory has the size of the address space as its fuel.
--
-- Not modelled: the disassembly, the fetch and the write-back stage with the checker, the MARS
-- kernel, the loaders and all input and output.
pub mod Prelude
pub mod Macro
pub mod Endian
pub mod Ports
pub mod Replacement
pub mod TagArray
pub mod InstrCache
pub mod BranchPredictor
pub mod Bpu
pub mod Trap
pub mod Operation
pub mod Alu
pub mod Multiplication
pub mod RegisterFile
pub mod FuncSim
pub mod Bypass
pub mod Riscv
pub mod Mips
pub mod Memory
pub mod Pipeline
pub mod Tests
