-- ===== src/RegisterFile.antt =====
-- func_sim/rf/rf.h: the register file, over the registers of an instruction set. Registers are words
-- of `w` bits; `none` is the exception of `array.at`.
pub mod Access
pub mod Accumulate
pub mod Carry
use mipt_mips.Prelude.{
  ℕ, suc, ◌+◌, ◌-◌, ◌^◌, ◌%◌, Bool, true, false, ◌&&◌, Option, none, some, List, ltb, ◌==◌,
  if◌then◌else◌, get_elem?, set, length, bit_and, bit_or, replicate, ◌>>=◌,
}
use mipt_mips.Prelude.Word.{narrow, add_word, sub_word, not_word}
use mipt_mips.Macro.{all_ones}
use mipt_mips.Operation.{Datapath, Accumulation, get_accumulation_type}

-- What the file asks of the register class; a register is its `to_rf_index`.
pub record RegisterClass : Type 0 where
  pub max_reg : ℕ
  pub is_zero : ℕ → Bool
  pub is_mips_lo : ℕ → Bool
  pub mips_hi : ℕ

-- `MIPSRegister`, after the order of mips_register.def.
abbrev pub mips_register : RegisterClass
mips_register = record {
  max_reg = 98;
  is_zero = λ r. r == 0;
  is_mips_lo = λ r. r == 33;
  mips_hi = 32;
}

abbrev pub Registers : Type 0
Registers = List ℕ

unfoldable pub new_registers : RegisterClass → Registers
new_registers c = replicate c.max_reg 0

unfoldable pub read : Registers → ℕ → Option ℕ
read rf num = get_elem? rf num

-- A store into `array.at`.
unfoldable pub put : Registers → ℕ → ℕ → Option Registers
put rf num val = if ltb num (length rf) then some (set rf num val) else none

unfoldable pub addition : ℕ → ℕ → ℕ × Bool
addition x y = (add_word 32 x y, ltb (2 ^ 32 - 1 - x) y)

unfoldable pub subtraction : ℕ → ℕ → ℕ × Bool
subtraction x y = (sub_word 32 x y, ltb x y)

module _ (c : RegisterClass) where
  unfoldable pub write : Registers → ℕ → ℕ → Option Registers
  unfolding put
  write rf num val = if c.is_zero num then some rf else put rf num val

module _ (w : ℕ) where
  unfoldable pub apply_mask : Registers → ℕ → ℕ → ℕ → Option ℕ
  unfolding read
  apply_mask rf num val mask = do
    old ← read rf num
    some (bit_or (bit_and old (not_word w mask)) (bit_and val mask))

  unfoldable pub write_masked : RegisterClass → Registers → ℕ → ℕ → ℕ → Option Registers
  unfolding write apply_mask
  write_masked c rf num val mask = do masked ← apply_mask rf num val mask; write c rf num masked

  unfoldable pub accumulate : Registers → ℕ → ℕ → Accumulation → Option (ℕ × Bool)
  unfolding read addition subtraction
  accumulate rf num val Accumulation.plus = do
    old ← read rf num
    some (addition (narrow 32 old) (narrow 32 val))
  accumulate rf num val Accumulation.minus = do
    old ← read rf num
    some (subtraction (narrow 32 old) (narrow 32 val))
  accumulate rf num val Accumulation.keep = some (val, false)

  unfoldable pub carry : RegisterClass → Registers → ℕ → Accumulation → Option Registers
  unfolding accumulate write_masked
  carry c rf mask accumulation = do
    (high, _) ← accumulate rf c.mips_hi 1 accumulation
    write_masked c rf c.mips_hi high mask

  unfoldable pub write_accumulated :
      RegisterClass → Registers → ℕ → ℕ → ℕ → Accumulation → Option Registers
  unfolding accumulate write_masked carry
  write_accumulated c rf num val mask accumulation = do
    (new_val, do_carry) ← accumulate rf num val accumulation
    carried ← (if c.is_mips_lo num && do_carry then carry c rf mask accumulation else some rf)
    write_masked c carried num new_val mask

  -- The instruction comes with the indices of its registers.
  unfoldable pub read_sources : Registers → ℕ → ℕ → Datapath → Option Datapath
  unfolding read
  read_sources rf src0 src1 instr = do
    value0 ← read rf src0
    value1 ← read rf src1
    some (record instr { v_src0 = value0; v_src1 = value1 })

  unfoldable pub write_dst : RegisterClass → Registers → ℕ → ℕ → Datapath → Option Registers
  unfolding write_accumulated get_accumulation_type
  write_dst c rf dst0 dst1 instr = do
    let accumulation = get_accumulation_type instr.operation
    once ← write_accumulated c rf dst0 instr.v_dst0 instr.mask accumulation
    write_accumulated c once dst1 instr.v_dst1 (all_ones w) accumulation
