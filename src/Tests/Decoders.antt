-- ===== src/Tests/Decoders.antt =====
-- The decoders at concrete instructions.
use mipt_mips.Prelude.{
  true, false, refl, not, ◌||◌, ◌==◌, [], ◌∷◌, length, All, some, replicate, ◌+◌, ◌-◌, ◌*◌, ◌^◌,
  ◌≤◌, ◌<◌, ◌≡◌, ◌↔◌, ◌⊎◌, arith,
}
use mipt_mips.Macro.{sign_extension, bitmask, ones_ls}
use mipt_mips.Riscv.{apply_mask}
use mipt_mips.Mips.{get_register}
use mipt_mips.Riscv.Formats.{ImmediateType, get_immediate_value, get_immediate}
use mipt_mips.Riscv.Places.{gather}
use mipt_mips.Riscv.Immediates.{layout, get_immediate_value_lem}
use mipt_mips.Riscv.Offsets.{get_immediate-offset}
use mipt_mips.Operation.{OperationType, is_jump, is_branch, is_load, is_store, is_divmult}
use mipt_mips.Mips.Fields.{decode_fields}
use mipt_mips.Mips.Version.{MipsVersion, is_supported}
use mipt_mips.Mips.Tables.{PrintType, find_entry}
use mipt_mips.Mips.Tables.Special.{isa_map_r}
use mipt_mips.Mips.Tables.Immediate.{isa_map_ij}
use mipt_mips.Mips.Dispatch.{get_table_entry}
use mipt_mips.Mips.Construct.{MipsInstr, mips_instr, named_instr, is_same, is_nop}
use mipt_mips.Mips.Operands.{mips_instr-some}
use mipt_mips.Mips.Assembly.{named_instr-mips_instr}

-- `beq` with an offset.
get_immediate_value_lem_example :
    get_immediate_value (mipt_mips.Riscv.decode 0xfe209ee3) ImmediateType.b_type
    ≡ gather (layout ImmediateType.b_type) 0xfe209ee3
get_immediate_value_lem_example =
    get_immediate_value_lem ImmediateType.b_type 0xfe209ee3 (omega arith)

get_immediate-offset_example :
    ((get_immediate 32 ImmediateType.b_type 0x800 ≡ sign_extension 32 0x800 13)
      ↔ ((0x800 < 2 ^ 11) ⊎ (2 ^ 13 - 2 ^ 11 ≤ 0x800)))
    × ((get_immediate 32 ImmediateType.j_type 0x80000 ≡ sign_extension 32 0x80000 21)
        ↔ ((0x80000 < 2 ^ 19) ⊎ (2 ^ 21 - 2 ^ 19 ≤ 0x80000)))
get_immediate-offset_example =
    get_immediate-offset 32 0x800 0x80000 (omega arith) (omega arith) (omega arith)

-- `add $v0, $a0, $a1`
decode_fields_example :
    (0x00851020
      ≡ (((((mipt_mips.Mips.decode 0x00851020).opcode * 2 ^ 5
                        + (mipt_mips.Mips.decode 0x00851020).rs)
                      * 2 ^ 5
                    + (mipt_mips.Mips.decode 0x00851020).rt)
                  * 2 ^ 5
                + (mipt_mips.Mips.decode 0x00851020).rd)
              * 2 ^ 5
            + (mipt_mips.Mips.decode 0x00851020).shamt)
          * 2 ^ 6
        + (mipt_mips.Mips.decode 0x00851020).funct)
    × (0x00851020
        ≡ (((mipt_mips.Mips.decode 0x00851020).opcode * 2 ^ 5
                  + (mipt_mips.Mips.decode 0x00851020).rs)
                * 2 ^ 5
              + (mipt_mips.Mips.decode 0x00851020).rt)
            * 2 ^ 16
          + (mipt_mips.Mips.decode 0x00851020).imm)
    × (0x00851020
        ≡ (mipt_mips.Mips.decode 0x00851020).opcode * 2 ^ 26
          + (mipt_mips.Mips.decode 0x00851020).jump)
decode_fields_example = decode_fields 0x00851020 (omega arith)

-- `mult $a0, $a1`
mips_instr-some_example :
    (instr : MipsInstr) × (mips_instr 32 MipsVersion.v32 0x00850018 0x400000 ≡ some instr)
    × (length instr.src ≡ 3)
    × (length instr.dst ≡ 2)
    × All (λ r. r < 98) instr.src
    × All (λ r. r < 98) instr.dst
    × ((is_load instr.operation || is_store instr.operation) ≡ not (instr.mem_size == 0))
    × (instr.mem_size ≤ 8)
    × ((is_divmult instr.operation ≡ false) ⊎ (instr.dst ≡ 33 ∷ 32 ∷ []))
mips_instr-some_example = mips_instr-some 32 MipsVersion.v32 0x00850018 0x400000

-- `lw $t0, 0x10($sp)`
named_instr-mips_instr_example :
    (instr named : MipsInstr) × (mips_instr 32 MipsVersion.v32 0x8fa80010 0x400000 ≡ some instr)
    × (named_instr 32 MipsVersion.v32 instr.opname
          (mipt_mips.Mips.get_immediate_value
            (mipt_mips.Mips.decode 0x8fa80010)
            (get_table_entry 0x8fa80010).imm_type)
          0x400000
        ≡ named)
    × (named
        ≡ (record instr { raw = 0; raw_valid = false; src = replicate 3 0; dst = replicate 2 0 }))
    × (is_same instr named ≡ false)
    × (is_nop instr ≡ false)
    × (is_nop named ≡ true)
named_instr-mips_instr_example = named_instr-mips_instr 32 MipsVersion.v32 0x8fa80010 0x400000

-- `mult $a0, $a1`, and `beq $zero, $zero` to itself on a processor with delay slots.
mult_runs :
    mips_instr 32 MipsVersion.v32 0x00850018 0x400000
    ≡ some (record {
      raw = 0x00850018;
      raw_valid = true;
      pc = 0x400000;
      opname = "mult";
      imm_print_type = PrintType.no_print;
      operation = OperationType.out_divmult;
      mem_size = 0;
      supported = true;
      src = 4 ∷ 5 ∷ 0 ∷ [];
      dst = 33 ∷ 32 ∷ [];
      v_imm = 0;
      new_pc = 0x400004;
      delay = 0;
      target = 0xdeadbeef;
    })
unfolding mips_instr apply_mask find_entry isa_map_r is_supported get_register
    mipt_mips.Mips.get_immediate is_jump is_branch mipt_mips.Mips.get_immediate_value
mult_runs = refl

beq_runs :
    mips_instr 32 MipsVersion.v32 0x1000ffff 0x400000
    ≡ some (record {
      raw = 0x1000ffff;
      raw_valid = true;
      pc = 0x400000;
      opname = "beq";
      imm_print_type = PrintType.arith;
      operation = OperationType.out_branch;
      mem_size = 0;
      supported = true;
      src = 0 ∷ 0 ∷ 0 ∷ [];
      dst = 0 ∷ 0 ∷ [];
      v_imm = 0xffffffff;
      new_pc = 0x400008;
      delay = 1;
      target = 0x400000;
    })
unfolding mips_instr apply_mask find_entry isa_map_ij is_supported get_register
    mipt_mips.Mips.get_immediate is_jump is_branch sign_extension mipt_mips.Mips.get_immediate_value
    bitmask ones_ls
beq_runs = refl
