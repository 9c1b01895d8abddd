-- ===== src/Mips/Entries.antt =====
-- The entries that the dispatch of an instruction can give, by their properties.
use mipt_mips.Prelude.{ℕ, Bool, true, false, [], ◌∷◌, ◌==◌, if◌then◌else◌, All}
use mipt_mips.Mips.{decode, MipsDecoder}
use mipt_mips.Mips.Tables.{TableEntry, Table, find_entry, unknown_instruction, instr_nop}
use mipt_mips.Mips.Dispatch.{
  all_isa_maps, get_table_entry, get_opcode_special_entry, get_cop1_s_entry, get_cop1_d_entry,
  get_cp0_entry, get_cp1_entry,
}

module _ {ℓ} (P : TableEntry → Type ℓ) (unknown : P unknown_instruction) where
  if-elim : (b : Bool) {x y : TableEntry} → P x → P y → P (if b then x else y)
  if-elim true px py = px
  if-elim false px py = py

  pub find_entry-elim :
      (table : Table) (key : ℕ) → All (λ row. P row.1) table → P (find_entry table key)
  unfolding find_entry
  find_entry-elim [] key h = unknown
  find_entry-elim ((k, e) ∷ rest) key h = if-elim (k == key) h.0 (find_entry-elim rest key h.1)

  -- What holds of every entry of the maps, of `instr_nop` and of `unknown_instruction` holds of the
  -- entry of a word.
  pub get_table_entry-elim :
      (bytes : ℕ)
      → P instr_nop
      → All (λ table. All (λ row. P row.1) table) all_isa_maps
      → P (get_table_entry bytes)
  unfolding all_isa_maps get_table_entry get_opcode_special_entry get_cop1_s_entry get_cop1_d_entry
      get_cp0_entry get_cp1_entry
  get_table_entry-elim bytes nop
        (
          r,
          (
            ri,
            (
              mips32,
              (
                ij,
                (
                  rs,
                  (
                    funct,
                    (cop1, (cop1x, (s, (d, (l, (w, (cop1i, (movci, (movcf_s, (movcf_d, _)))))))))),
                  ),
                ),
              ),
            ),
          ),
        ) =
      let i : MipsDecoder = decode bytes in
      let fe : (table : Table) (key : ℕ) → All (λ row. P row.1) table → P (find_entry table key) =
        find_entry-elim in
      if-elim (i.bytes == 0) nop (
        if-elim (i.opcode == 0) (if-elim (i.funct == 1) (fe _ i.ft movci) (fe _ i.funct r)) (
          if-elim (i.opcode == 1) (fe _ i.rt ri) (
            if-elim (i.opcode == 0x10) (if-elim (i.funct == 0) (fe _ i.rs rs) (fe _ i.funct funct))
              (if-elim (i.opcode == 0x11)
                (if-elim (i.fmt == 8) (fe _ i.ft cop1i) (
                  if-elim (i.fmt == 0x10)
                    (if-elim (i.funct == 0x11) (fe _ i.ft movcf_s) (fe _ i.funct s))
                    (if-elim (i.fmt == 0x11)
                      (if-elim (i.funct == 0x11) (fe _ i.ft movcf_d) (fe _ i.funct d))
                      (if-elim (i.fmt == 0x14) (fe _ i.funct w)
                        (if-elim (i.fmt == 0x15) (fe _ i.funct l) (fe _ i.fmt cop1))))))
                (if-elim (i.opcode == 0x13) (fe _ i.funct cop1x)
                  (if-elim (i.opcode == 0x1C) (fe _ i.funct mips32) (fe _ i.opcode ij)))))))
