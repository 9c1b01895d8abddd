-- ===== src/Mips/Operands.antt =====
-- The operands of every instruction that the constructor makes.
use mipt_mips.Prelude.{
  ℕ, zero, suc, ◌≤◌, ◌<◌, ◌≡◌, ◌⊎◌, inl, inr, refl, ap, sym, ◌∙◌, false, ◌||◌, not, List, [], ◌∷◌,
  ◌==◌, length, map, All, All-replicate, Option, some, ◌>>=◌, arith, length-map, length-replicate,
}
use mipt_mips.Operation.{is_load, is_store, is_divmult}
use mipt_mips.Mips.{decode, MipsReg, get_register}
use mipt_mips.Mips.Fields.{get_register-lt}
use mipt_mips.Mips.Version.{MipsVersion}
use mipt_mips.Mips.Tables.{TableEntry}
use mipt_mips.Mips.Dispatch.{get_table_entry}
use mipt_mips.Mips.Construct.{MipsInstr, fill, from_entry, mips_instr, init_instr}
use mipt_mips.Mips.Shape.{get_table_entry-well_formed, well_formed-parts}

-- `fill` of the registers that fit.
pub fill_lem :
    (P : ℕ → Type 0) (n : ℕ) (xs : List ℕ)
    → P 0
    → length xs ≤ n
    → All P xs
    → (ys : List ℕ) × (fill n xs ≡ some ys) × (length ys ≡ n) × All P ys
unfolding fill
fill_lem P n [] pos h small = (_, refl, length-replicate n 0, All-replicate P n 0 pos)
fill_lem P zero (x ∷ xs) pos h small = absurd (omega (arith, h))
fill_lem P (suc n) (x ∷ xs) pos h small =
    let rest = fill_lem P n xs pos (omega (arith, h)) small.1 in
    (x ∷ rest.0, ap (λ o. o >>= λ tail. some (x ∷ tail)) rest.1, ap suc rest.2, (small.0, rest.3))

All-registers :
    (bytes : ℕ) (rs : List MipsReg) → All (λ r. r < 98) (map (get_register (decode bytes)) rs)
All-registers bytes [] = _
All-registers bytes (r ∷ rs) = (get_register-lt bytes r, All-registers bytes rs)

registers :
    (bytes n : ℕ) (rs : List MipsReg)
    → length rs ≤ n
    → (ys : List ℕ) × (fill n (map (get_register (decode bytes)) rs) ≡ some ys)
      × (length ys ≡ n)
      × All (λ r. r < 98) ys
registers bytes n rs h =
    fill_lem (λ r. r < 98) n (map (get_register (decode bytes)) rs) (omega arith) (rw length-map h)
      (All-registers bytes rs)

-- The registers of the entry of a word fit their arrays.
pub entry_registers :
    (bytes : ℕ)
    → ((ys : List ℕ) × (fill 3 (map (get_register (decode bytes)) (get_table_entry bytes).src)
          ≡ some ys)
        × (length ys ≡ 3)
        × All (λ r. r < 98) ys)
      × ((ys : List ℕ) × (fill 2 (map (get_register (decode bytes)) (get_table_entry bytes).dst)
            ≡ some ys)
          × (length ys ≡ 2)
          × All (λ r. r < 98) ys)
entry_registers bytes =
    let parts = well_formed-parts (get_table_entry bytes) (get_table_entry-well_formed bytes) in
    (registers bytes 3 _ parts.0, registers bytes 2 _ parts.1)

lo_hi-registers :
    (bytes : ℕ) (rs : List MipsReg) (ys : List ℕ)
    → rs ≡ MipsReg.lo ∷ MipsReg.hi ∷ []
    → fill 2 (map (get_register (decode bytes)) rs) ≡ some ys
    → ys ≡ 33 ∷ 32 ∷ []
unfolding get_register fill
lo_hi-registers bytes rs ys same_rs filled =
    let exact : some (33 ∷ 32 ∷ []) ≡ some ys =
      sym (ap (λ r. fill 2 (map (get_register (decode bytes)) r)) same_rs) ∙ filled in
    cc

pub bind-some {ℓ κ} :
    {A : Type ℓ} {B : Type κ} (o p : Option A) (a b : A) (f : A → A → Option B) (c : B)
    → o ≡ some a
    → p ≡ some b
    → f a b ≡ some c
    → (o >>= λ x. p >>= λ y. f x y) ≡ some c
bind-some o p a b f c eo ep ef = rw (eo, ep) ef

-- The constructor makes an instruction of every word: no access of its arrays throws. The three
-- sources and the two destinations are registers of the file; the instruction has a memory size,
-- of 8 bytes at most, exactly where it loads or stores; and it has LO and HI for destinations
-- where `is_divmult` holds of its operation.
pub mips_instr-some :
    (w : ℕ) (version : MipsVersion) (bytes pc : ℕ)
    → (instr : MipsInstr) × (mips_instr w version bytes pc ≡ some instr)
      × (length instr.src ≡ 3)
      × (length instr.dst ≡ 2)
      × All (λ r. r < 98) instr.src
      × All (λ r. r < 98) instr.dst
      × ((is_load instr.operation || is_store instr.operation) ≡ not (instr.mem_size == 0))
      × (instr.mem_size ≤ 8)
      × ((is_divmult instr.operation ≡ false) ⊎ (instr.dst ≡ 33 ∷ 32 ∷ []))
unfolding mips_instr from_entry init_instr get_register
mips_instr-some w version bytes pc =
    let e : TableEntry = get_table_entry bytes in
    let parts = well_formed-parts e (get_table_entry-well_formed bytes) in
    let (src, dst) = entry_registers bytes in
    (
      _,
      bind-some _ _ _ _ _ _ src.1 dst.1 refl,
      src.2,
      dst.2,
      src.3,
      dst.3,
      parts.2,
      parts.3,
      elim parts.4 [
        | inl single ↦ inl single
        | inr lo_and_hi ↦ inr (lo_hi-registers bytes e.dst dst.0 lo_and_hi dst.1)
      ],
    )
