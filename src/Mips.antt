-- ===== src/Mips.antt =====
-- mips/mips_instr_decode.h and mips/mips_register/mips_register.h: the fields, the immediates and
-- the registers of an instruction of 32 bits. A register is its `to_rf_index`, after the order of
-- mips_register.def.
pub mod Fields
pub mod Version
pub mod Tables
pub mod Dispatch
pub mod Construct
pub mod Entries
pub mod Shape
pub mod Operands
pub mod Names
pub mod Assembly
use mipt_mips.Prelude.{ℕ, ◌+◌, Bool, true, false, ltb, ◌==◌, if◌then◌else◌}
use mipt_mips.Macro.{sign_extension}
use mipt_mips.Riscv.{apply_mask}

-- `apply_mask` is written out in this file too, with the same body as that of riscv_decoder.h.
pub record MipsDecoder : Type 0 where
  pub funct : ℕ
  pub shamt : ℕ
  pub rd : ℕ
  pub rt : ℕ
  pub rs : ℕ
  pub opcode : ℕ
  pub imm : ℕ
  pub jump : ℕ
  pub bytes : ℕ
  pub fd : ℕ
  pub fs : ℕ
  pub ft : ℕ
  pub fmt : ℕ

unfoldable pub decode : ℕ → MipsDecoder
decode raw = record {
  funct = apply_mask raw 0x3f;
  shamt = apply_mask raw 0x7c0;
  rd = apply_mask raw 0xf800;
  rt = apply_mask raw 0x1f0000;
  rs = apply_mask raw 0x3e00000;
  opcode = apply_mask raw 0xfc000000;
  imm = apply_mask raw 0xffff;
  jump = apply_mask raw 0x3ffffff;
  bytes = apply_mask raw 0xffffffff;
  fd = apply_mask raw 0x7c0;
  fs = apply_mask raw 0xf800;
  ft = apply_mask raw 0x1f0000;
  fmt = apply_mask raw 0x3e00000;
}

pub data MipsReg : Type 0 where
  rs_reg rt_reg rd_reg cp0_rd sr epc fr ft_reg fs_reg fd_reg fcsr zero_reg ra hi lo hi_lo : MipsReg

unfoldable pub is_explicit_register : MipsReg → Bool
is_explicit_register MipsReg.rs_reg = true
is_explicit_register MipsReg.rt_reg = true
is_explicit_register MipsReg.rd_reg = true
is_explicit_register MipsReg.cp0_rd = true
is_explicit_register MipsReg.fr = true
is_explicit_register MipsReg.ft_reg = true
is_explicit_register MipsReg.fs_reg = true
is_explicit_register MipsReg.fd_reg = true
is_explicit_register MipsReg.fcsr = true
is_explicit_register _ = false

-- The characters of the formats; `other_format` is the default of both switches.
pub data MipsImmediate : Type 0 where
  n_format s_format j_format l_format other_format : MipsImmediate

unfoldable pub get_immediate_value : MipsDecoder → MipsImmediate → ℕ
get_immediate_value d MipsImmediate.n_format = 0
get_immediate_value d MipsImmediate.s_format = d.shamt
get_immediate_value d MipsImmediate.j_format = d.jump
get_immediate_value d _ = d.imm

-- For a register type of `w` bits.
unfoldable pub get_immediate : ℕ → MipsImmediate → ℕ → ℕ
get_immediate w MipsImmediate.other_format value = sign_extension w value 16
get_immediate w _ value = value

unfoldable pub from_cp0_index : ℕ → ℕ
from_cp0_index id = 34 + id

unfoldable pub from_cp1_index : ℕ → ℕ
from_cp1_index id = 66 + id

unfoldable pub from_gdb_index : ℕ → ℕ
from_gdb_index id =
    if ltb id 32
    then id
    else if id == 32
    then 46
    else if id == 33
    then 33
    else if id == 34
    then 32
    else if id == 35
    then 42
    else if id == 36
    then 47
    else 0

-- `hi_lo` is for the failed assertion, after which the code returns `zero`.
unfoldable pub get_register : MipsDecoder → MipsReg → ℕ
unfolding from_cp0_index from_cp1_index
get_register d MipsReg.hi = 32
get_register d MipsReg.lo = 33
get_register d MipsReg.ra = 31
get_register d MipsReg.rs_reg = d.rs
get_register d MipsReg.rt_reg = d.rt
get_register d MipsReg.rd_reg = d.rd
get_register d MipsReg.cp0_rd = from_cp0_index d.rd
get_register d MipsReg.sr = 46
get_register d MipsReg.epc = 48
get_register d MipsReg.fd_reg = from_cp1_index d.fd
get_register d MipsReg.fs_reg = from_cp1_index d.fs
get_register d MipsReg.ft_reg = from_cp1_index d.ft
get_register d MipsReg.fr = from_cp1_index d.fmt
get_register d MipsReg.fcsr = 97
get_register d _ = 0
