-- ===== src/Tests/RiscvDecoder.antt =====
-- The constructors of RISC-V instructions at a concrete word.
use mipt_mips.Prelude.{
  List, [], ◌∷◌, false, ℕ, ◌+◌, ◌*◌, ◌%◌, ◌^◌, ◌≤◌, ◌≡◌, refl, ◌||◌, not, inl, some, ◌==◌, length,
  All, replicate, if◌then◌else◌,
}
use mipt_mips.Operation.{is_load, is_store}
use mipt_mips.Mips.Dispatch.{◌=ₛ◌}
use mipt_mips.Riscv.{decode, get_csr_regnum, max_reg}
use mipt_mips.Riscv.Formats.{get_immediate_value}
use mipt_mips.Riscv.Tables.{Opcodes}
use mipt_mips.Riscv.Construct.{
  RiscvInstr, cmd_desc, find_bytes, is_compressed, riscv_instr, named_instr, is_same, is_nop,
}
use mipt_mips.Riscv.Shape.{is_fence}
use mipt_mips.Riscv.Operands.{IsOperand, riscv_instr-some}
use mipt_mips.Riscv.Names.{named_instr-riscv_instr}

-- No word has the opcode of another instruction than `lw`.
abbrev only_lw : Opcodes
only_lw name = if name =ₛ "lw" then (0x2003, 0x707f) else (1, 0)

-- The CSRs SATP, SEPC and STVEC.
abbrev csrs : List ℕ
csrs = 0x180 ∷ 0x141 ∷ 0x105 ∷ []

-- `lw a1, 8(a0)`
abbrev word : ℕ
word = 0x852583

riscv_instr-some_example :
    (instr : RiscvInstr) × (riscv_instr 32 only_lw csrs word 0x100 ≡ some instr)
    × (length instr.src ≡ 3)
    × (length instr.dst ≡ 2)
    × All (IsOperand csrs word) instr.src
    × All (IsOperand csrs word) instr.dst
    × (8 * instr.mem_size ≤ 32)
    × ((is_load instr.operation || is_store instr.operation)
        ≡ (not (instr.mem_size == 0) || is_fence instr.opname))
    × (instr.new_pc
        ≡ (0x100
            + (if is_compressed (find_bytes 32 (cmd_desc 32 only_lw) word).subset then 2 else 4))
          % 2 ^ 64)
riscv_instr-some_example = riscv_instr-some 32 only_lw csrs word 0x100 (inl refl)

-- An unknown CSR has no register of the file.
unknown_csr : (get_csr_regnum csrs 0x105 ≡ 34) × (get_csr_regnum csrs 0x7c0 ≡ max_reg csrs)
unfolding get_csr_regnum
unknown_csr = (refl, refl)

named_instr-riscv_instr_example :
    (instr named : RiscvInstr) × (riscv_instr 32 only_lw csrs word 0x100 ≡ some instr)
    × (named_instr 32 only_lw instr.opname
          (get_immediate_value
            (decode word)
            (find_bytes 32 (cmd_desc 32 only_lw) word).immediate_type)
          0x100
        ≡ named)
    × (named ≡ (record instr { instr = 0xdeadbeef; src = replicate 3 0; dst = replicate 2 0 }))
    × (is_same instr named ≡ false)
    × (is_nop instr ≡ false)
    × (is_nop named ≡ false)
named_instr-riscv_instr_example = named_instr-riscv_instr 32 only_lw csrs word 0x100 (inl refl)
