-- ===== src/Riscv/Names.antt =====
-- The names of the RISC-V instructions, and the constructor from a name.
use Prim.Native.String.{String}
use text.Mathlib.TextPositions.{eq_refl}
use mipt_mips.Prelude.{
  ℕ, ◌==◌, ◌≡◌, refl, ap, Bool, true, false, ◌&&◌, not, Bool-cases, inl, inr, List, [], ◌∷◌, All,
  some, replicate, arith,
}
use mipt_mips.Mips.Dispatch.{◌=ₛ◌}
use mipt_mips.Mips.Shape.{and_split}
use mipt_mips.Mips.Operands.{bind-some}
use mipt_mips.Riscv.{decode}
use mipt_mips.Riscv.Formats.{get_immediate, get_immediate_value}
use mipt_mips.Riscv.Tables.{Opcodes, RiscvTableEntry, invalid_instr, check_mask_and_type}
use mipt_mips.Riscv.Tables.Integer.{cmd_desc_i, cmd_desc_m}
use mipt_mips.Riscv.Tables.Compressed.{cmd_desc_c}
use mipt_mips.Riscv.Tables.Bits.{cmd_desc_b}
use mipt_mips.Riscv.Construct.{
  RiscvInstr, cmd_desc, find_bytes, find_name, from_entry, init_instr, riscv_instr, named_instr,
  is_same, is_same_bytes, is_nop,
}
use mipt_mips.Riscv.Shape.{IsWidth}
use mipt_mips.Riscv.Operands.{entry_registers}

-- No entry has the name.
unfoldable is_new : String → List RiscvTableEntry → Bool
is_new name [] = true
is_new name (e ∷ rest) = not (name =ₛ e.entry.name) && is_new name rest

unfoldable is_distinct : List RiscvTableEntry → Bool
unfolding is_new
is_distinct [] = true
is_distinct (e ∷ rest) = is_new e.entry.name rest && is_distinct rest

is_distinct-cmd_desc : (w : ℕ) (opcodes : Opcodes) → is_distinct (cmd_desc w opcodes) ≡ true
unfolding is_distinct is_new cmd_desc cmd_desc_i cmd_desc_m cmd_desc_c cmd_desc_b
is_distinct-cmd_desc w opcodes = refl

not-true : (b : Bool) → not b ≡ true → b ≡ false
not-true b h = ground (arith, h)

-- The search for the name of a row stops at that row.
IsFound : ℕ → List RiscvTableEntry → List RiscvTableEntry → Type 0
IsFound w entries rows = All (λ e. find_name w entries e.entry.name ≡ e) rows

find_name-skip :
    (w : ℕ) (e : RiscvTableEntry) (entries rows : List RiscvTableEntry)
    → is_new e.entry.name rows ≡ true
    → IsFound w entries rows
    → IsFound w (e ∷ entries) rows
unfolding find_name is_new IsFound
find_name-skip w e entries [] h found = _
find_name-skip w e entries (d ∷ rows) h found =
    let both = and_split _ _ h in
    (
      rw (not-true (e.entry.name =ₛ d.entry.name) both.0) found.0,
      find_name-skip w e entries rows both.1 found.1,
    )

is_distinct-IsFound :
    (w : ℕ) (entries : List RiscvTableEntry)
    → is_distinct entries ≡ true
    → IsFound w entries entries
unfolding find_name is_distinct IsFound
is_distinct-IsFound w [] h = _
is_distinct-IsFound w (e ∷ rest) h =
    let both = and_split _ _ h in
    (
      rw (eq_refl e.entry.name) refl,
      find_name-skip w e rest rest both.0 (is_distinct-IsFound w rest both.1),
    )

find_bytes-elim {ℓ} :
    (P : RiscvTableEntry → Type ℓ) (w : ℕ) (entries : List RiscvTableEntry) (bytes : ℕ)
    → P (invalid_instr w)
    → All P entries
    → P (find_bytes w entries bytes)
unfolding find_bytes
find_bytes-elim P w [] bytes invalid h = invalid
find_bytes-elim P w (e ∷ rest) bytes invalid h = elim (Bool-cases (check_mask_and_type w e bytes)) [
  | inl here ↦ rw here h.0
  | inr later ↦ rw later (find_bytes-elim P w rest bytes invalid h.1)
]

invalid_named :
    (w : ℕ) (opcodes : Opcodes)
    → find_name w (cmd_desc w opcodes) (invalid_instr w).entry.name ≡ invalid_instr w
unfolding find_name cmd_desc
invalid_named w opcodes = refl

-- The name of the entry of a word finds that entry again, also where the word has no entry.
find_name-find_bytes :
    (w : ℕ) (opcodes : Opcodes) (bytes : ℕ)
    → let e = find_bytes w (cmd_desc w opcodes) bytes in
      find_name w (cmd_desc w opcodes) e.entry.name ≡ e
unfolding IsFound
find_name-find_bytes w opcodes bytes =
    let all = is_distinct-IsFound w (cmd_desc w opcodes) (is_distinct-cmd_desc w opcodes) in
    find_bytes-elim (λ e. find_name w (cmd_desc w opcodes) e.entry.name ≡ e) w (cmd_desc w opcodes)
      bytes (invalid_named w opcodes) all

-- A RISC-V instruction made of a word is made again from its own name and the field of the word that
-- is its immediate, whatever the opcodes and the CSRs, but for its registers and the word, which is
-- `NO_VAL32`. So the two are the same exactly if that is the word, the first is a NOP exactly if the
-- word is 0, and the second is never one.
pub named_instr-riscv_instr :
    (w : ℕ) (opcodes : Opcodes) (csrs : List ℕ) (bytes pc : ℕ)
    → IsWidth w
    → (instr named : RiscvInstr) × (riscv_instr w opcodes csrs bytes pc ≡ some instr)
      × (named_instr w opcodes instr.opname
            (get_immediate_value
              (decode bytes)
              (find_bytes w (cmd_desc w opcodes) bytes).immediate_type)
            pc
          ≡ named)
      × (named ≡ (record instr { instr = 0xdeadbeef; src = replicate 3 0; dst = replicate 2 0 }))
      × (is_same instr named ≡ (bytes == 0xdeadbeef))
      × (is_nop instr ≡ (bytes == 0))
      × (is_nop named ≡ false)
unfolding riscv_instr from_entry init_instr named_instr is_same is_same_bytes is_nop
named_instr-riscv_instr w opcodes csrs bytes pc width =
    let (src, dst) = entry_registers w opcodes csrs bytes width in
    let e : RiscvTableEntry = find_bytes w (cmd_desc w opcodes) bytes in
    let v_imm : ℕ =
      get_immediate w e.immediate_type (get_immediate_value (decode bytes) e.immediate_type) in
    (
      init_instr e bytes src.0 dst.0 v_imm pc,
      init_instr e 0xdeadbeef (replicate 3 0) (replicate 2 0) v_imm pc,
      bind-some _ _ _ _ _ _ src.1 dst.1 refl,
      ap
          (λ e'.
            init_instr e' 0xdeadbeef (replicate 3 0) (replicate 2 0)
              (get_immediate w e'.immediate_type
                (get_immediate_value (decode bytes) e.immediate_type))
              pc)
          (find_name-find_bytes w opcodes bytes),
      refl,
      ground arith,
      refl,
      refl,
    )
