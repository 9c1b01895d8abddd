-- ===== src/Mips/Construct.antt =====
-- mips/mips_instr.cpp: what the constructor of an instruction makes of its entry.
use Prim.Native.String.{String}
use mipt_mips.Prelude.{
  ℕ, zero, suc, ◌*◌, ◌%◌, ◌^◌, Bool, true, false, not, ◌&&◌, ◌==◌, Option, none, some, List, [],
  ◌∷◌, if◌then◌else◌, bit_and, bit_or, map, replicate, ◌>>=◌,
}
use mipt_mips.Prelude.Word.{add_word, shl}
use mipt_mips.Macro.{sign_extension}
use mipt_mips.Operation.{OperationType, is_jump, is_branch, is_direct_jump}
use mipt_mips.Mips.{MipsDecoder, MipsReg, decode, get_register, get_immediate, get_immediate_value}
use mipt_mips.Mips.Version.{MipsVersion, is_supported}
use mipt_mips.Mips.Tables.{TableEntry, PrintType}
use mipt_mips.Mips.Dispatch.{get_table_entry, get_named_entry}

unfoldable pub is_mars : MipsVersion → Bool
is_mars MipsVersion.mars = true
is_mars MipsVersion.mars64 = true
is_mars _ = false

-- `entry.src.empty() || entry.src[0] != Src::EPC`
unfoldable pub is_not_return : List MipsReg → Bool
is_not_return (MipsReg.epc ∷ rest) = false
is_not_return _ = true

-- `init`: the number of delay slots.
unfoldable pub delayed_slots : TableEntry → MipsVersion → ℕ
unfolding is_mars is_not_return
delayed_slots e version =
    if is_jump e.operation && (not (is_mars version) && is_not_return e.src) then 1 else 0

-- `init_target`, for registers of `w` bits and the target that the instruction had.
unfoldable pub init_target : ℕ → OperationType → ℕ → ℕ → ℕ → ℕ
init_target w o pc v_imm target =
    if is_branch o
    then add_word 64 (add_word 64 pc 4) (shl 64 (sign_extension 64 (v_imm % 2 ^ 64) w) 2)
    else if is_direct_jump o
    then bit_or (bit_and pc 0xf0000000) (shl w v_imm 2)
    else target

-- An array of `n` registers, all `zero`, where the constructor writes a list from the first place;
-- `none` is the exception of `at`.
unfoldable pub fill : ℕ → List ℕ → Option (List ℕ)
fill n [] = some (replicate n 0)
fill zero (r ∷ rest) = none
fill (suc n) (r ∷ rest) = fill n rest >>= λ tail. some (r ∷ tail)

-- An instruction, after the constructor. The executor is that of the name where it is supported,
-- and `mips_unknown` elsewhere. The byte order and the registers to print, which only the dumps read,
-- are not here.
pub record MipsInstr : Type 0 where
  pub raw : ℕ
  pub raw_valid : Bool
  pub pc : ℕ
  pub opname : String
  pub imm_print_type : PrintType
  pub operation : OperationType
  pub mem_size : ℕ
  pub supported : Bool
  pub src : List ℕ
  pub dst : List ℕ
  pub v_imm : ℕ
  pub new_pc : ℕ
  pub delay : ℕ
  pub target : ℕ

unfoldable pub is_same_bytes : MipsInstr → ℕ → Bool
is_same_bytes instr bytes = instr.raw == bytes

unfoldable pub is_same : MipsInstr → MipsInstr → Bool
unfolding is_same_bytes
is_same instr rhs = instr.pc == rhs.pc && is_same_bytes instr rhs.raw

unfoldable pub is_nop : MipsInstr → Bool
is_nop instr = instr.raw == 0

-- `init` and `init_target`, with what the constructors set.
unfoldable pub init_instr :
    ℕ → MipsVersion → TableEntry → ℕ → Bool → List ℕ → List ℕ → ℕ → ℕ → MipsInstr
unfolding delayed_slots init_target
init_instr w version e raw raw_valid src dst v_imm pc = record {
  raw = raw;
  raw_valid = raw_valid;
  pc = pc;
  opname = e.name;
  imm_print_type = e.imm_print_type;
  operation = e.operation;
  mem_size = e.mem_size;
  supported = is_supported e.versions version;
  src = src;
  dst = dst;
  v_imm = v_imm;
  new_pc = add_word 64 (add_word 64 pc 4) (delayed_slots e version * 4);
  delay = delayed_slots e version;
  target = init_target w e.operation pc v_imm 0xdeadbeef;
}

-- The constructor from the entry of the word.
unfoldable pub from_entry : ℕ → MipsVersion → TableEntry → ℕ → ℕ → Option MipsInstr
unfolding init_instr fill
from_entry w version e bytes pc =
    let instr : MipsDecoder = decode bytes in
    let v_imm : ℕ = get_immediate w e.imm_type (get_immediate_value instr e.imm_type) in
    do
      src ← fill 3 (map (get_register instr) e.src)
      dst ← fill 2 (map (get_register instr) e.dst)
      some (init_instr w version e bytes true src dst v_imm pc)

unfoldable pub mips_instr : ℕ → MipsVersion → ℕ → ℕ → Option MipsInstr
unfolding get_table_entry from_entry
mips_instr w version bytes pc = from_entry w version (get_table_entry bytes) bytes pc

-- The constructor from a name and an immediate, which leaves the registers `zero`.
unfoldable pub named_instr : ℕ → MipsVersion → String → ℕ → ℕ → MipsInstr
unfolding get_named_entry init_instr
named_instr w version str_opcode immediate pc =
    let e : TableEntry = get_named_entry str_opcode in
    init_instr w version e 0 false (replicate 3 0) (replicate 2 0)
      (get_immediate w e.imm_type immediate) pc
