-- ===== src/Mips/Assembly.antt =====
-- The two constructors of an instruction, from a word and from a name.
use mipt_mips.Prelude.{ℕ, ◌≡◌, refl, ap, true, false, some, replicate, ◌==◌, arith}
use mipt_mips.Mips.{decode, get_immediate, get_immediate_value}
use mipt_mips.Mips.Version.{MipsVersion}
use mipt_mips.Mips.Tables.{TableEntry}
use mipt_mips.Mips.Dispatch.{get_table_entry}
use mipt_mips.Mips.Construct.{
  MipsInstr, mips_instr, named_instr, from_entry, init_instr, is_same, is_same_bytes, is_nop,
}
use mipt_mips.Mips.Operands.{entry_registers, bind-some}
use mipt_mips.Mips.Names.{get_named_entry-get_table_entry}

-- An instruction made of a word is made again from its own name and the field of the word that is its
-- immediate, but for its registers and the word, which is 0 and not valid. So the two are the same,
-- and the first is a NOP, exactly if the word is 0, and the second is always taken for a NOP.
pub named_instr-mips_instr :
    (w : ℕ) (version : MipsVersion) (bytes pc : ℕ)
    → (instr named : MipsInstr) × (mips_instr w version bytes pc ≡ some instr)
      × (named_instr w version instr.opname
            (get_immediate_value (decode bytes) (get_table_entry bytes).imm_type)
            pc
          ≡ named)
      × (named
          ≡ (record instr { raw = 0; raw_valid = false; src = replicate 3 0; dst = replicate 2 0 }))
      × (is_same instr named ≡ (bytes == 0))
      × (is_nop instr ≡ (bytes == 0))
      × (is_nop named ≡ true)
unfolding mips_instr from_entry init_instr named_instr is_same is_same_bytes is_nop
named_instr-mips_instr w version bytes pc =
    let (src, dst) = entry_registers bytes in
    let e : TableEntry = get_table_entry bytes in
    let v_imm : ℕ = get_immediate w e.imm_type (get_immediate_value (decode bytes) e.imm_type) in
    (
      init_instr w version e bytes true src.0 dst.0 v_imm pc,
      init_instr w version e 0 false (replicate 3 0) (replicate 2 0) v_imm pc,
      bind-some _ _ _ _ _ _ src.1 dst.1 refl,
      ap
          (λ e'.
            init_instr w version e' 0 false (replicate 3 0) (replicate 2 0)
              (get_immediate w e'.imm_type (get_immediate_value (decode bytes) e.imm_type)) pc)
          (get_named_entry-get_table_entry bytes),
      refl,
      ground arith,
      refl,
      refl,
    )
