-- ===== src/Alu.antt =====
-- func_sim/alu.h and func_sim/alu_primitives.h: the execution units, a module for each group of
-- them. `w` is the width of the registers, and `t` that of the type `T` of an operation.
pub mod Addresses
pub mod Primitives
pub mod Overflow
pub mod Arithmetic
pub mod Shifts
pub mod Logic
pub mod Branches
pub mod OverflowLaws
pub mod ShiftLaws
