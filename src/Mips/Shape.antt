-- ===== src/Mips/Shape.antt =====
-- What every entry of the tables satisfies, by a test of all of them.
use mipt_mips.Prelude.{
  ℕ, ◌≤◌, ◌≡◌, ◌⊎◌, inl, inr, refl, sym, Bool, true, false, ◌&&◌, ◌||◌, not, List, [], ◌∷◌, ◌==◌,
  leb, leb→le, length, All, arith,
}
use mipt_mips.Operation.{is_load, is_store, is_divmult}
use mipt_mips.Mips.{MipsReg}
use mipt_mips.Mips.Tables.{TableEntry, Table, unknown_instruction, instr_nop}
use mipt_mips.Mips.Tables.Special.{
  isa_map_r, isa_map_ri, isa_map_mips32, isa_map_cop0_rs, isa_map_cop0_funct, isa_map_movci,
}
use mipt_mips.Mips.Tables.Immediate.{isa_map_ij}
use mipt_mips.Mips.Tables.Float.{isa_map_cop1_s, isa_map_cop1_d}
use mipt_mips.Mips.Tables.FloatRest.{
  isa_map_cop1, isa_map_cop1_l, isa_map_cop1_w, isa_map_cop1i, isa_map_cop1x, isa_map_movcf_d,
  isa_map_movcf_s,
}
use mipt_mips.Mips.Dispatch.{all_isa_maps, get_table_entry}
use mipt_mips.Mips.Entries.{get_table_entry-elim}

unfoldable is_lo_hi : List MipsReg → Bool
is_lo_hi (MipsReg.lo ∷ MipsReg.hi ∷ []) = true
is_lo_hi _ = false

unfoldable pub same : Bool → Bool → Bool
same true b = b
same false b = not b

-- The entry fits the arrays; it has a size where it loads or stores, and both halves of a product
-- where it multiplies.
unfoldable pub well_formed : TableEntry → Bool
unfolding is_lo_hi same
well_formed e =
    leb (length e.src) 3
    && (leb (length e.dst) 2
        && (same (is_load e.operation || is_store e.operation) (not (e.mem_size == 0))
            && (leb e.mem_size 8 && (not (is_divmult e.operation) || is_lo_hi e.dst))))

unfoldable all_rows : Table → Bool
unfolding well_formed
all_rows [] = true
all_rows ((k, e) ∷ rest) = well_formed e && all_rows rest

unfoldable all_tables : List Table → Bool
unfolding all_rows
all_tables [] = true
all_tables (table ∷ rest) = all_rows table && all_tables rest

all_tables-maps : all_tables all_isa_maps ≡ true
unfolding all_tables all_rows well_formed same is_lo_hi all_isa_maps is_load is_store is_divmult
    isa_map_r isa_map_ri isa_map_mips32 isa_map_ij isa_map_cop0_rs isa_map_cop0_funct isa_map_cop1
    isa_map_cop1x isa_map_cop1_s isa_map_cop1_d isa_map_cop1_l isa_map_cop1_w isa_map_cop1i
    isa_map_movci isa_map_movcf_s isa_map_movcf_d
all_tables-maps = refl

pub and_split : (a b : Bool) → (a && b) ≡ true → (a ≡ true) × (b ≡ true)
and_split a b h = ground (arith, h)

all_rows-All : (table : Table) → all_rows table ≡ true → All (λ row. well_formed row.1 ≡ true) table
unfolding all_rows
all_rows-All [] h = _
all_rows-All ((k, e) ∷ rest) h =
    let both = and_split (well_formed e) (all_rows rest) h in (both.0, all_rows-All rest both.1)

all_tables-All :
    (tables : List Table)
    → all_tables tables ≡ true
    → All (λ table. All (λ row. well_formed row.1 ≡ true) table) tables
unfolding all_tables
all_tables-All [] h = _
all_tables-All (table ∷ rest) h =
    let both = and_split (all_rows table) (all_tables rest) h in
    (all_rows-All table both.0, all_tables-All rest both.1)

pub get_table_entry-well_formed : (bytes : ℕ) → well_formed (get_table_entry bytes) ≡ true
unfolding well_formed same is_lo_hi unknown_instruction instr_nop is_load is_store is_divmult
get_table_entry-well_formed bytes =
    get_table_entry-elim (λ e. well_formed e ≡ true) refl bytes refl
      (all_tables-All all_isa_maps all_tables-maps)

pub same_lem : (a b : Bool) → same a b ≡ true → a ≡ b
unfolding same
same_lem true b h = sym h
same_lem false b h = ground (arith, h)

lo_hi :
    (b : Bool) (dst : List MipsReg)
    → (not b || is_lo_hi dst) ≡ true
    → (b ≡ false) ⊎ (dst ≡ MipsReg.lo ∷ MipsReg.hi ∷ [])
unfolding is_lo_hi
lo_hi false dst h = inl refl
lo_hi true (MipsReg.lo ∷ MipsReg.hi ∷ []) h = inr refl
lo_hi true _ h = inl (sym h)

-- What `well_formed` says.
pub well_formed-parts :
    (e : TableEntry)
    → well_formed e ≡ true
    → (length e.src ≤ 3)
      × (length e.dst ≤ 2)
      × ((is_load e.operation || is_store e.operation) ≡ not (e.mem_size == 0))
      × (e.mem_size ≤ 8)
      × ((is_divmult e.operation ≡ false) ⊎ (e.dst ≡ MipsReg.lo ∷ MipsReg.hi ∷ []))
unfolding well_formed
well_formed-parts e h =
    let src = and_split _ _ h in
    let dst = and_split _ _ src.1 in
    let memory = and_split _ _ dst.1 in
    let size = and_split _ _ memory.1 in
    (
      leb→le _ _ src.0,
      leb→le _ _ dst.0,
      same_lem _ _ memory.0,
      leb→le _ _ size.0,
      lo_hi (is_divmult e.operation) e.dst size.1,
    )
