-- ===== src/Riscv/Shape.antt =====
-- What every entry of the RISC-V table satisfies, by a test of all of them, and the entry that a word
-- finds.
use Prim.Native.String.{String}
use mipt_mips.Prelude.{
  ℕ, ◌*◌, ◌≤◌, ◌≡◌, ◌⊎◌, inl, inr, refl, Bool, true, false, ◌&&◌, ◌||◌, not, List, [], ◌∷◌, ◌==◌,
  bit_and, leb, leb→le, length, arith, Bool-cases,
}
use mipt_mips.Operation.{is_load, is_store}
use mipt_mips.Mips.Dispatch.{◌=ₛ◌}
use mipt_mips.Mips.Shape.{and_split, same, same_lem}
use mipt_mips.Riscv.Tables.{Opcodes, RiscvTableEntry, invalid_instr, check_mask_and_type}
use mipt_mips.Riscv.Tables.Integer.{cmd_desc_i, cmd_desc_m}
use mipt_mips.Riscv.Tables.Compressed.{cmd_desc_c}
use mipt_mips.Riscv.Tables.Bits.{cmd_desc_b}
use mipt_mips.Riscv.Construct.{cmd_desc, find_bytes}

-- The widths of registers that the simulator has.
abbrev pub IsWidth : ℕ → Type 0
IsWidth w = (w ≡ 32) ⊎ ((w ≡ 64) ⊎ (w ≡ 128))

-- A fence is a load of no bytes.
unfoldable pub is_fence : String → Bool
is_fence name = (name =ₛ "fence") || (name =ₛ "fence_i")

-- The entry fits the arrays, it has a size where it loads or stores, and where it is of the width it
-- has no more bytes than a register.
unfoldable pub well_formed : ℕ → RiscvTableEntry → Bool
unfolding is_fence
well_formed w e =
    leb (length e.src) 3
    && (leb (length e.dst) 2
        && (same (is_load e.operation || is_store e.operation)
              (not (e.mem_size == 0) || is_fence e.entry.name)
            && (bit_and w e.bit_width == 0 || leb (8 * e.mem_size) w)))

unfoldable all_rows : ℕ → List RiscvTableEntry → Bool
unfolding well_formed
all_rows w [] = true
all_rows w (e ∷ rest) = well_formed w e && all_rows w rest

all_rows-cmd_desc : (w : ℕ) (opcodes : Opcodes) → IsWidth w → all_rows w (cmd_desc w opcodes) ≡ true
unfolding all_rows well_formed same is_fence is_load is_store cmd_desc cmd_desc_i cmd_desc_m
    cmd_desc_c cmd_desc_b
all_rows-cmd_desc w opcodes (inl e) = rw e refl
all_rows-cmd_desc w opcodes (inr (inl e)) = rw e refl
all_rows-cmd_desc w opcodes (inr (inr e)) = rw e refl

off : (a b : Bool) → (a && not b) ≡ true → b ≡ false
off a b h = ground (arith, h)

-- The entry that a word finds is of the width.
of_width :
    (w : ℕ) (e : RiscvTableEntry) (bytes : ℕ)
    → check_mask_and_type w e bytes ≡ true
    → (bit_and w e.bit_width == 0) ≡ false
unfolding check_mask_and_type
of_width w e bytes here = off _ _ here

find_bytes-well_formed :
    (w : ℕ) (entries : List RiscvTableEntry) (bytes : ℕ)
    → well_formed w (invalid_instr w) ≡ true
    → (bit_and w (invalid_instr w).bit_width == 0) ≡ false
    → all_rows w entries ≡ true
    → (well_formed w (find_bytes w entries bytes) ≡ true)
      × ((bit_and w (find_bytes w entries bytes).bit_width == 0) ≡ false)
unfolding all_rows find_bytes
find_bytes-well_formed w [] bytes shape wide h = (shape, wide)
find_bytes-well_formed w (e ∷ rest) bytes shape wide h =
    let both = and_split _ _ h in
    elim (Bool-cases (check_mask_and_type w e bytes)) [
      | inl here ↦ rw here (both.0, of_width w e bytes here)
      | inr later ↦ rw later (find_bytes-well_formed w rest bytes shape wide both.1)
    ]

invalid-well_formed :
    (w : ℕ)
    → IsWidth w
    → (well_formed w (invalid_instr w) ≡ true)
      × ((bit_and w (invalid_instr w).bit_width == 0) ≡ false)
unfolding well_formed same is_fence is_load is_store
invalid-well_formed w (inl e) = rw e (refl, refl)
invalid-well_formed w (inr (inl e)) = rw e (refl, refl)
invalid-well_formed w (inr (inr e)) = rw e (refl, refl)

or_right : (a b : Bool) → a ≡ false → (a || b) ≡ true → b ≡ true
or_right a b off h = ground (arith, off, h)

-- What holds of the entry of a word.
pub entry_parts :
    (w : ℕ) (opcodes : Opcodes) (bytes : ℕ)
    → IsWidth w
    → let e = find_bytes w (cmd_desc w opcodes) bytes in
      (length e.src ≤ 3)
      × (length e.dst ≤ 2)
      × ((is_load e.operation || is_store e.operation)
          ≡ (not (e.mem_size == 0) || is_fence e.entry.name))
      × (8 * e.mem_size ≤ w)
unfolding well_formed
entry_parts w opcodes bytes width =
    let (shape, wide) = invalid-well_formed w width in
    let (h, found) =
      find_bytes-well_formed w (cmd_desc w opcodes) bytes shape wide
        (all_rows-cmd_desc w opcodes width) in
    let src = and_split _ _ h in
    let dst = and_split _ _ src.1 in
    let memory = and_split _ _ dst.1 in
    (
      leb→le _ _ src.0,
      leb→le _ _ dst.0,
      same_lem _ _ memory.0,
      leb→le _ _ (or_right _ _ found memory.1),
    )
