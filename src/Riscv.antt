-- ===== src/Riscv.antt =====
-- risc_v/riscv_decoder.h: the fields, the immediates and the registers of an instruction of 32 bits.
-- A register is its `to_rf_index`. The list of the CSRs comes from a generated header and is a
-- parameter; risc_v/riscv_register has the number of the register of a CSR.
pub mod Formats
pub mod Places
pub mod Immediates
pub mod Offsets
pub mod Executors
pub mod Tables
pub mod Construct
pub mod Shape
pub mod Operands
pub mod Names
use mipt_mips.Prelude.{
  ℕ, ◌+◌, ◌%◌, ◌^◌, bit_and, bit_or, if◌then◌else◌, List, [], ◌∷◌, length, ◌==◌,
}
use mipt_mips.Prelude.Word.{shl, shr, countr_zero}
use mipt_mips.Macro.{bitmask, sign_extension}
use mipt_mips.Operation.{OperationType, is_branch, is_direct_jump}

-- The digits of a word under a mask, moved down to the lowest place.
unfoldable pub apply_mask : ℕ → ℕ → ℕ
unfolding countr_zero
apply_mask bytes mask = shr (bit_and bytes mask) (countr_zero 32 mask)

pub record Decoder : Type 0 where
  pub bytes : ℕ
  pub sz : ℕ
  pub i_imm : ℕ
  pub s_imm4_0 : ℕ
  pub s_imm11_5 : ℕ
  pub b_imm11 : ℕ
  pub b_imm4_1 : ℕ
  pub b_imm10_5 : ℕ
  pub b_imm12 : ℕ
  pub u_imm : ℕ
  pub j_imm19_12 : ℕ
  pub j_imm11 : ℕ
  pub j_imm10_1 : ℕ
  pub j_imm20 : ℕ
  pub csr_imm : ℕ
  pub ci_imm_1 : ℕ
  pub ci_imm_2 : ℕ
  pub css_imm : ℕ
  pub ciw_imm : ℕ
  pub cl_imm_1 : ℕ
  pub cl_imm_2 : ℕ
  pub cj_imm : ℕ

unfoldable pub decode : ℕ → Decoder
unfolding apply_mask
decode raw = record {
  bytes = apply_mask raw 0xffffffff;
  sz = apply_mask raw 0x3;
  i_imm = apply_mask raw 0xfff00000;
  s_imm4_0 = apply_mask raw 0xf80;
  s_imm11_5 = apply_mask raw 0xfe000000;
  b_imm11 = apply_mask raw 0x80;
  b_imm4_1 = apply_mask raw 0xf00;
  b_imm10_5 = apply_mask raw 0x7e000000;
  b_imm12 = apply_mask raw 0x80000000;
  u_imm = apply_mask raw 0xfffff000;
  j_imm19_12 = apply_mask raw 0xff000;
  j_imm11 = apply_mask raw 0x100000;
  j_imm10_1 = apply_mask raw 0x7fe00000;
  j_imm20 = apply_mask raw 0x80000000;
  csr_imm = apply_mask raw 0xf8000;
  ci_imm_1 = apply_mask raw 0x1000;
  ci_imm_2 = apply_mask raw 0x7c;
  css_imm = apply_mask raw 0x1f80;
  ciw_imm = apply_mask raw 0x1fe0;
  cl_imm_1 = apply_mask raw 0x1c00;
  cl_imm_2 = apply_mask raw 0x60;
  cj_imm = apply_mask raw 0x1ffc;
}

-- `RISCVInstr::init_target` of riscv_instr.cpp, for the target that the instruction had.
unfoldable pub init_target : OperationType → ℕ → ℕ → ℕ → ℕ
init_target o pc v_imm target =
    if is_branch o
    then (pc + sign_extension 64 (v_imm % 2 ^ 64) 12) % 2 ^ 64
    else if is_direct_jump o
    then (pc + sign_extension 64 (v_imm % 2 ^ 64) 20) % 2 ^ 64
    else target

pub data Reg : Type 0 where
  rs1 rs2 rs2_cmp rd rs1_3bit rs2_3bit rd_3bit csr sepc mepc reg_zero sp ra : Reg

-- `from_cpu_popular_index`: register s0 has number 8.
unfoldable pub from_cpu_popular_index : ℕ → ℕ
from_cpu_popular_index id = id + 8

-- `MAX_VAL_RegNum`: the CSRs, whose addresses are `csrs`, come after the 32 registers.
unfoldable pub max_reg : List ℕ → ℕ
max_reg csrs = 32 + length csrs

-- `get_csr_regnum` of an address: the map has the numbers of the registers from `num` on, and
-- `try_read` gives `bad` for an address that it does not have.
unfoldable pub try_read : List ℕ → ℕ → ℕ → ℕ → ℕ
try_read [] num key bad = bad
try_read (value ∷ csrs) num key bad = if value == key then num else try_read csrs (num + 1) key bad

unfoldable pub get_csr_regnum : List ℕ → ℕ → ℕ
unfolding try_read max_reg
get_csr_regnum csrs val = try_read csrs 32 val (max_reg csrs)

-- The array `registers`, at an index.
unfoldable pub get_register : List ℕ → ℕ → Reg → ℕ
unfolding apply_mask from_cpu_popular_index get_csr_regnum
get_register csrs raw Reg.reg_zero = 0
get_register csrs raw Reg.sp = 2
get_register csrs raw Reg.ra = 1
get_register csrs raw Reg.sepc = get_csr_regnum csrs 0x141
get_register csrs raw Reg.mepc = get_csr_regnum csrs 0x341
get_register csrs raw Reg.rd = apply_mask raw 0xf80
get_register csrs raw Reg.rs1 = apply_mask raw 0xf8000
get_register csrs raw Reg.rs2 = apply_mask raw 0x1f00000
get_register csrs raw Reg.csr = get_csr_regnum csrs (apply_mask raw 0xfff00000)
get_register csrs raw Reg.rs2_cmp = apply_mask raw 0x7c
get_register csrs raw Reg.rd_3bit = from_cpu_popular_index (apply_mask raw 0x1c)
get_register csrs raw Reg.rs1_3bit = from_cpu_popular_index (apply_mask raw 0x380)
get_register csrs raw Reg.rs2_3bit = from_cpu_popular_index (apply_mask raw 0x1c)
