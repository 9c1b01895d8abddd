-- ===== src/Mips/Tables.antt =====
-- mips/mips_instr.cpp: an entry of the tables of instructions. The executor of an entry is the
-- function with its name after `mips_`, a dot for an underscore; it is not a field here.
pub mod Special
pub mod Immediate
pub mod Float
pub mod FloatRest
use Prim.Native.String.{String}
use mipt_mips.Prelude.{ℕ, List, [], ◌∷◌, ◌==◌, if◌then◌else◌}
use mipt_mips.Operation.{OperationType}
use mipt_mips.Mips.{MipsReg, MipsImmediate}
use mipt_mips.Mips.Version.{mips_i}

-- `Imm`, how an immediate is printed.
pub data PrintType : Type 0 where
  no_print shift logic arith trap addr jump jump_rel : PrintType

pub record TableEntry : Type 0 where
  pub name : String
  pub operation : OperationType
  pub mem_size : ℕ
  pub imm_type : MipsImmediate
  pub imm_print_type : PrintType
  pub src : List MipsReg
  pub dst : List MipsReg
  pub versions : ℕ

-- An entry in braces.
abbrev pub entry :
    String
    → OperationType
    → ℕ
    → MipsImmediate
    → PrintType
    → List MipsReg
    → List MipsReg
    → ℕ
    → TableEntry
entry name operation mem_size imm_type imm_print_type src dst versions = record {
  name = name;
  operation = operation;
  mem_size = mem_size;
  imm_type = imm_type;
  imm_print_type = imm_print_type;
  src = src;
  dst = dst;
  versions = versions;
}

abbrev pub row :
    ℕ
    → String
    → OperationType
    → ℕ
    → MipsImmediate
    → PrintType
    → List MipsReg
    → List MipsReg
    → ℕ
    → ℕ × TableEntry
row key name operation mem_size imm_type imm_print_type src dst versions =
    (key, entry name operation mem_size imm_type imm_print_type src dst versions)

abbrev pub Table : Type 0
Table = List (ℕ × TableEntry)

unfoldable pub unknown_instruction : TableEntry
unfolding mips_i
unknown_instruction =
    entry "Unknown instruction" OperationType.out_arithm 0 MipsImmediate.n_format PrintType.no_print
      [] (MipsReg.zero_reg ∷ []) mips_i

unfoldable pub instr_nop : TableEntry
unfolding mips_i
instr_nop =
    entry "nop" OperationType.out_arithm 0 MipsImmediate.n_format PrintType.no_print []
      (MipsReg.zero_reg ∷ []) mips_i

-- `get_table_entry` of a table.
unfoldable pub find_entry : Table → ℕ → TableEntry
unfolding unknown_instruction
find_entry [] key = unknown_instruction
find_entry ((k, e) ∷ rest) key = if k == key then e else find_entry rest key
