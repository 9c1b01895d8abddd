-- ===== src/Riscv/Tables.antt =====
-- risc_v/riscv_instr.cpp: an entry of the table of instructions. The words and the masks of the
-- opcodes come from a generated header and are a function of the names.
pub mod Integer
pub mod Compressed
pub mod Bits
use Prim.Native.String.{String}
use mipt_mips.Prelude.{ℕ, ◌+◌, Bool, not, ◌&&◌, List, [], ◌∷◌, ◌==◌, bit_and}
use mipt_mips.Operation.{Datapath, OperationType}
use mipt_mips.Mips.Tables.{PrintType}
use mipt_mips.Riscv.{Reg}
use mipt_mips.Riscv.Formats.{ImmediateType}
use mipt_mips.Riscv.Executors.{do_nothing}

-- `RISCVAutogeneratedTableEntry`
pub record Opcode : Type 0 where
  pub name : String
  pub match_bits : ℕ
  pub mask : ℕ

-- `riscv.opcode.gen.h`
abbrev pub Opcodes : Type 0
Opcodes = String → ℕ × ℕ

unfoldable pub check_mask : Opcode → ℕ → Bool
check_mask e bytes = bit_and bytes e.mask == e.match_bits

abbrev pub instr_invalid : Opcode
instr_invalid = record { name = "unknown"; match_bits = 0x0; mask = 0xffff }

-- The character of the subset.
pub data Subset : Type 0 where
  subset_i subset_m subset_c subset_b : Subset

pub record RiscvTableEntry : Type 0 where
  pub subset : Subset
  pub entry : Opcode
  pub function : Datapath → Datapath
  pub operation : OperationType
  pub immediate_type : ImmediateType
  pub immediate_print_type : PrintType
  pub src : List Reg
  pub dst : List Reg
  pub mem_size : ℕ
  pub bit_width : ℕ

-- Sets of widths, as `32 | 64 | 128`.
abbrev pub any_width : ℕ
any_width = 32 + 64 + 128

abbrev pub from_64 : ℕ
from_64 = 64 + 128

abbrev pub up_to_64 : ℕ
up_to_64 = 32 + 64

abbrev pub only_32 : ℕ
only_32 = 32

abbrev pub only_128 : ℕ
only_128 = 128

-- `invalid_instr`, which is also the entry with the values by default.
abbrev pub invalid_instr : ℕ → RiscvTableEntry
invalid_instr w = record {
  subset = Subset.subset_i;
  entry = instr_invalid;
  function = do_nothing w;
  operation = OperationType.out_arithm;
  immediate_type = ImmediateType.no_type;
  immediate_print_type = PrintType.no_print;
  src = Reg.reg_zero ∷ Reg.reg_zero ∷ [];
  dst = Reg.reg_zero ∷ [];
  mem_size = 0;
  bit_width = any_width;
}

-- An entry in braces.
abbrev pub row :
    Opcodes
    → Subset
    → String
    → (Datapath → Datapath)
    → OperationType
    → ImmediateType
    → PrintType
    → List Reg
    → List Reg
    → ℕ
    → ℕ
    → RiscvTableEntry
row opcodes subset name function operation immediate_type immediate_print_type src dst mem_size
      bit_width =
    record {
      subset = subset;
      entry = record { name = name; match_bits = (opcodes name).0; mask = (opcodes name).1 };
      function = function;
      operation = operation;
      immediate_type = immediate_type;
      immediate_print_type = immediate_print_type;
      src = src;
      dst = dst;
      mem_size = mem_size;
      bit_width = bit_width;
    }

unfoldable pub check_mask_and_type : ℕ → RiscvTableEntry → ℕ → Bool
unfolding check_mask
check_mask_and_type w e bytes = check_mask e.entry bytes && not (bit_and w e.bit_width == 0)
