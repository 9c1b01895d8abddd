-- ===== src/Trap/Formats.antt =====
-- Every trap has a number in each format, and a number is read back as a trap with that number.
use mipt_mips.Prelude.{
  ℕ, ◌≡◌, ◌≢◌, refl, some, List, [], ◌∷◌, ◌==◌, arith, ◌⊎◌, inl, inr, Bool-cases,
}
use mipt_mips.Trap.{Trap, Entry, RiscvCauses, converter, convert_to, convert_from}

abbrev pub InTable : Entry → List Entry → Type 0
InTable e [] = ⊥
InTable e (f ∷ fs) = (e ≡ f) ⊎ InTable e fs

-- A number that any entry has in a format is read back, whatever the order of the table, as a trap
-- of some entry with that number.
pub convert_from_sound :
    (field : Entry → ℕ) (es : List Entry) (e : Entry)
    → InTable e es
    → (f : Entry) × InTable f es
      × (convert_from field (field e) es ≡ some f.trap)
      × (field f ≡ field e)
unfolding convert_from
convert_from_sound field [] e h = absurd h
convert_from_sound field (f ∷ es) e h = elim (Bool-cases (field f == field e)) [
  | inl same ↦ (f, inl refl, rw same, ground arith)
  | inr other ↦ elim h [
    | inl here ↦ absurd (ground arith)
    | inr there ↦
        let (g, found, result, number) = convert_from_sound field es e there in
        (g, inr found, rw other result, number)
  ]
]

-- Every trap but the invalid one has a number in each format.
pub convert_to_total :
    (c : RiscvCauses) (field : Entry → ℕ) (t : Trap)
    → t ≢ Trap.invalid_trap
    → (n : ℕ) × (convert_to field t (converter c) ≡ some n)
unfolding converter convert_to
convert_to_total c field Trap.no_trap h = (_, refl)
convert_to_total c field Trap.halt h = (_, refl)
convert_to_total c field Trap.breakpoint h = (_, refl)
convert_to_total c field Trap.explicit_trap h = (_, refl)
convert_to_total c field Trap.syscall h = (_, refl)
convert_to_total c field Trap.integer_overflow h = (_, refl)
convert_to_total c field Trap.unsupported_syscall h = (_, refl)
convert_to_total c field Trap.unknown_instruction h = (_, refl)
convert_to_total c field Trap.reserved_instruction h = (_, refl)
convert_to_total c field Trap.coprocessor_unusable h = (_, refl)
convert_to_total c field Trap.unaligned_load h = (_, refl)
convert_to_total c field Trap.unaligned_store h = (_, refl)
convert_to_total c field Trap.unaligned_fetch h = (_, refl)
convert_to_total c field Trap.fp_overflow h = (_, refl)
convert_to_total c field Trap.fp_underflow h = (_, refl)
convert_to_total c field Trap.fp_div_by_zero h = (_, refl)
convert_to_total c field Trap.invalid_trap h = absurd (h refl)
