-- ===== src/Mips/Dispatch.antt =====
-- mips/mips_instr.cpp: the choice of the entry for an instruction, by its word or by its name.
use mipt_mips.Prelude.{ℕ, Bool, Option, none, some, List, [], ◌∷◌, ◌==◌, if◌then◌else◌}
use Prim.Native.String.{String}
use mipt_mips.Mips.{MipsDecoder, decode}
use mipt_mips.Mips.Tables.{TableEntry, Table, find_entry, instr_nop, unknown_instruction}
use mipt_mips.Mips.Tables.Special.{
  isa_map_r, isa_map_ri, isa_map_mips32, isa_map_cop0_rs, isa_map_cop0_funct, isa_map_movci,
}
use mipt_mips.Mips.Tables.Immediate.{isa_map_ij}
use mipt_mips.Mips.Tables.Float.{isa_map_cop1_s, isa_map_cop1_d}
use mipt_mips.Mips.Tables.FloatRest.{
  isa_map_cop1, isa_map_cop1_l, isa_map_cop1_w, isa_map_cop1i, isa_map_cop1x, isa_map_movcf_d,
  isa_map_movcf_s,
}

-- The equality of texts.
infix 50 ◌=ₛ◌
abbrev pub ◌=ₛ◌ : String → String → Bool
s =ₛ t = text.Mathlib.Text.◌==◌ s t

unfoldable pub get_opcode_special_entry : MipsDecoder → TableEntry
get_opcode_special_entry instr =
    if instr.funct == 0x1
    then find_entry isa_map_movci instr.ft
    else find_entry isa_map_r instr.funct

unfoldable pub get_cop1_s_entry : MipsDecoder → TableEntry
get_cop1_s_entry instr =
    if instr.funct == 0x11
    then find_entry isa_map_movcf_s instr.ft
    else find_entry isa_map_cop1_s instr.funct

unfoldable pub get_cop1_d_entry : MipsDecoder → TableEntry
get_cop1_d_entry instr =
    if instr.funct == 0x11
    then find_entry isa_map_movcf_d instr.ft
    else find_entry isa_map_cop1_d instr.funct

unfoldable pub get_cp0_entry : MipsDecoder → TableEntry
get_cp0_entry instr =
    if instr.funct == 0x0
    then find_entry isa_map_cop0_rs instr.rs
    else find_entry isa_map_cop0_funct instr.funct

unfoldable pub get_cp1_entry : MipsDecoder → TableEntry
unfolding get_cop1_s_entry get_cop1_d_entry
get_cp1_entry instr =
    if instr.fmt == 0x8
    then find_entry isa_map_cop1i instr.ft
    else if instr.fmt == 0x10
    then get_cop1_s_entry instr
    else if instr.fmt == 0x11
    then get_cop1_d_entry instr
    else if instr.fmt == 0x14
    then find_entry isa_map_cop1_w instr.funct
    else if instr.fmt == 0x15
    then find_entry isa_map_cop1_l instr.funct
    else find_entry isa_map_cop1 instr.fmt

unfoldable pub get_table_entry : ℕ → TableEntry
unfolding decode get_opcode_special_entry get_cp0_entry get_cp1_entry
get_table_entry bytes =
    let instr : MipsDecoder = decode bytes in
    if instr.bytes == 0
    then instr_nop
    else if instr.opcode == 0x0
    then get_opcode_special_entry instr
    else if instr.opcode == 0x1
    then find_entry isa_map_ri instr.rt
    else if instr.opcode == 0x10
    then get_cp0_entry instr
    else if instr.opcode == 0x11
    then get_cp1_entry instr
    else if instr.opcode == 0x13
    then find_entry isa_map_cop1x instr.funct
    else if instr.opcode == 0x1C
    then find_entry isa_map_mips32 instr.funct
    else find_entry isa_map_ij instr.opcode

unfoldable pub all_isa_maps : List Table
all_isa_maps =
    isa_map_r ∷ isa_map_ri ∷ isa_map_mips32 ∷ isa_map_ij ∷ isa_map_cop0_rs ∷ isa_map_cop0_funct
    ∷ isa_map_cop1 ∷ isa_map_cop1x ∷ isa_map_cop1_s ∷ isa_map_cop1_d ∷ isa_map_cop1_l
    ∷ isa_map_cop1_w ∷ isa_map_cop1i ∷ isa_map_movci ∷ isa_map_movcf_s ∷ isa_map_movcf_d ∷ []

-- `find_entry`; an unordered map has no order of its own, the model takes that of the source.
unfoldable pub find_name : Table → String → Option TableEntry
find_name [] name = none
find_name ((k, e) ∷ rest) name = if e.name =ₛ name then some e else find_name rest name

unfoldable pub find_in_maps : List Table → String → TableEntry
unfolding find_name unknown_instruction
find_in_maps [] name = unknown_instruction
find_in_maps (table ∷ rest) name = elim (find_name table name) [
  | none ↦ find_in_maps rest name
  | some e ↦ e
]

-- `get_table_entry` of a name.
unfoldable pub get_named_entry : String → TableEntry
unfolding all_isa_maps find_in_maps instr_nop
get_named_entry str_opcode =
    if str_opcode =ₛ "nop" then instr_nop else find_in_maps all_isa_maps str_opcode
