-- ===== src/Riscv/Construct.antt =====
-- risc_v/riscv_instr.cpp: the table of instructions, the choice of an entry by word and by name, and
-- the constructors of an instruction. The registers to print, which only the dumps read, are not
-- here.
use Prim.Native.String.{String}
use mipt_mips.Prelude.{
  ℕ, ◌&&◌, ◌==◌, Bool, true, false, Option, some, List, [], ◌∷◌, ◌++◌, map, replicate,
  if◌then◌else◌, ◌>>=◌,
}
use mipt_mips.Prelude.Word.{add_word}
use mipt_mips.Operation.{Datapath, OperationType}
use mipt_mips.Mips.Tables.{PrintType}
use mipt_mips.Mips.Dispatch.{◌=ₛ◌}
use mipt_mips.Mips.Construct.{fill}
use mipt_mips.Riscv.{decode, get_register, init_target}
use mipt_mips.Riscv.Formats.{get_immediate, get_immediate_value}
use mipt_mips.Riscv.Tables.{Opcodes, RiscvTableEntry, Subset, invalid_instr, check_mask_and_type}
use mipt_mips.Riscv.Tables.Integer.{cmd_desc_i, cmd_desc_m}
use mipt_mips.Riscv.Tables.Compressed.{cmd_desc_c}
use mipt_mips.Riscv.Tables.Bits.{cmd_desc_b}

unfoldable pub cmd_desc : ℕ → Opcodes → List RiscvTableEntry
cmd_desc w opcodes =
    invalid_instr w ∷ cmd_desc_i w opcodes
    ++ cmd_desc_m w opcodes
    ++ cmd_desc_c w opcodes
    ++ cmd_desc_b w opcodes

-- `find_entry` of a word, in the entries from some point on.
unfoldable pub find_bytes : ℕ → List RiscvTableEntry → ℕ → RiscvTableEntry
find_bytes w [] bytes = invalid_instr w
find_bytes w (e ∷ rest) bytes = if check_mask_and_type w e bytes then e else find_bytes w rest bytes

-- `find_entry` of a name.
unfoldable pub find_name : ℕ → List RiscvTableEntry → String → RiscvTableEntry
find_name w [] name = invalid_instr w
find_name w (e ∷ rest) name = if e.entry.name =ₛ name then e else find_name w rest name

unfoldable pub is_compressed : Subset → Bool
is_compressed Subset.subset_c = true
is_compressed _ = false

-- An instruction, after the constructor. `instr` is its word.
pub record RiscvInstr : Type 0 where
  pub instr : ℕ
  pub pc : ℕ
  pub opname : String
  pub imm_print_type : PrintType
  pub operation : OperationType
  pub mem_size : ℕ
  pub executor : Datapath → Datapath
  pub src : List ℕ
  pub dst : List ℕ
  pub v_imm : ℕ
  pub new_pc : ℕ
  pub target : ℕ

unfoldable pub is_same_bytes : RiscvInstr → ℕ → Bool
is_same_bytes self bytes = bytes == self.instr

unfoldable pub is_same : RiscvInstr → RiscvInstr → Bool
unfolding is_same_bytes
is_same self rhs = self.pc == rhs.pc && is_same_bytes self rhs.instr

unfoldable pub is_nop : RiscvInstr → Bool
is_nop self = self.instr == 0

-- `init` and `init_target`, with what the constructors set.
unfoldable pub init_instr : RiscvTableEntry → ℕ → List ℕ → List ℕ → ℕ → ℕ → RiscvInstr
unfolding is_compressed init_target
init_instr e instr src dst v_imm pc = record {
  instr = instr;
  pc = pc;
  opname = e.entry.name;
  imm_print_type = e.immediate_print_type;
  operation = e.operation;
  mem_size = e.mem_size;
  executor = e.function;
  src = src;
  dst = dst;
  v_imm = v_imm;
  new_pc = add_word 64 pc (if is_compressed e.subset then 2 else 4);
  target = init_target e.operation pc v_imm 0xdeadbeef;
}

-- The constructor from the entry of the word; `none` is an exception.
unfoldable pub from_entry : ℕ → List ℕ → RiscvTableEntry → ℕ → ℕ → Option RiscvInstr
unfolding init_instr fill
from_entry w csrs e bytes pc =
    let v_imm : ℕ =
      get_immediate w e.immediate_type (get_immediate_value (decode bytes) e.immediate_type) in
    do
      src ← fill 3 (map (get_register csrs bytes) e.src)
      dst ← fill 2 (map (get_register csrs bytes) e.dst)
      some (init_instr e bytes src dst v_imm pc)

unfoldable pub riscv_instr : ℕ → Opcodes → List ℕ → ℕ → ℕ → Option RiscvInstr
unfolding cmd_desc find_bytes from_entry
riscv_instr w opcodes csrs bytes pc =
    from_entry w csrs (find_bytes w (cmd_desc w opcodes) bytes) bytes pc

-- The constructor from a name and an immediate, which leaves the registers `zero` and the word
-- `NO_VAL32`.
unfoldable pub named_instr : ℕ → Opcodes → String → ℕ → ℕ → RiscvInstr
unfolding cmd_desc find_name init_instr
named_instr w opcodes name immediate pc =
    let e : RiscvTableEntry = find_name w (cmd_desc w opcodes) name in
    init_instr e 0xdeadbeef (replicate 3 0) (replicate 2 0)
      (get_immediate w e.immediate_type immediate) pc
