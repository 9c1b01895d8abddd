-- ===== src/Mips/Names.antt =====
-- The names of the instructions, as an assembler gives them.
use Prim.Native.String.{String}
use text.Mathlib.TextPositions.{eq_refl}
use mipt_mips.Prelude.{
  ℕ, ◌≡◌, refl, sym, ◌∙◌, Bool, true, false, ◌&&◌, not, Bool-cases, inl, inr, List, [], ◌∷◌, ◌++◌,
  All, All-append, All-zip, Option, none, some, arith,
}
use mipt_mips.Mips.Tables.{TableEntry, Table, unknown_instruction, instr_nop}
use mipt_mips.Mips.Tables.Special.{
  isa_map_r, isa_map_ri, isa_map_mips32, isa_map_cop0_rs, isa_map_cop0_funct, isa_map_movci,
}
use mipt_mips.Mips.Tables.Immediate.{isa_map_ij}
use mipt_mips.Mips.Tables.Float.{isa_map_cop1_s, isa_map_cop1_d}
use mipt_mips.Mips.Tables.FloatRest.{
  isa_map_cop1, isa_map_cop1_l, isa_map_cop1_w, isa_map_cop1i, isa_map_cop1x, isa_map_movcf_d,
  isa_map_movcf_s,
}
use mipt_mips.Mips.Dispatch.{
  ◌=ₛ◌, all_isa_maps, find_name, find_in_maps, get_named_entry, get_table_entry,
}
use mipt_mips.Mips.Entries.{get_table_entry-elim}
use mipt_mips.Mips.Shape.{and_split}

unfoldable flatten : List Table → Table
flatten [] = []
flatten (table ∷ rest) = table ++ flatten rest

-- No entry of the table has the name.
unfoldable is_new : String → Table → Bool
is_new name [] = true
is_new name ((k, e) ∷ rest) = not (name =ₛ e.name) && is_new name rest

unfoldable is_distinct : Table → Bool
unfolding is_new
is_distinct [] = true
is_distinct ((k, e) ∷ rest) = is_new e.name rest && is_distinct rest

unfoldable no_nop : Table → Bool
no_nop [] = true
no_nop ((k, e) ∷ rest) = not (e.name =ₛ "nop") && no_nop rest

is_distinct-maps : (is_distinct (flatten all_isa_maps) && no_nop (flatten all_isa_maps)) ≡ true
unfolding is_distinct is_new no_nop flatten all_isa_maps isa_map_r isa_map_ri isa_map_mips32
    isa_map_ij isa_map_cop0_rs isa_map_cop0_funct isa_map_cop1 isa_map_cop1x isa_map_cop1_s
    isa_map_cop1_d isa_map_cop1_l isa_map_cop1_w isa_map_cop1i isa_map_movci isa_map_movcf_s
    isa_map_movcf_d
is_distinct-maps = refl

not-true : (b : Bool) → not b ≡ true → b ≡ false
not-true b h = ground (arith, h)

-- The search for the name of a row stops at that row.
IsFound : Table → Table → Type 0
IsFound table rows = All (λ row. find_name table row.1.name ≡ some row.1) rows

find_name-skip :
    (k : ℕ) (e : TableEntry) (table rows : Table)
    → is_new e.name rows ≡ true
    → IsFound table rows
    → IsFound ((k, e) ∷ table) rows
unfolding find_name is_new IsFound
find_name-skip k e table [] h found = _
find_name-skip k e table ((l, d) ∷ rows) h found =
    let both = and_split _ _ h in
    (rw (not-true (e.name =ₛ d.name) both.0) found.0, find_name-skip k e table rows both.1 found.1)

is_distinct-IsFound : (table : Table) → is_distinct table ≡ true → IsFound table table
unfolding find_name is_distinct IsFound
is_distinct-IsFound [] h = _
is_distinct-IsFound ((k, e) ∷ rest) h =
    let both = and_split _ _ h in
    (
      rw (eq_refl e.name) refl,
      find_name-skip k e rest rest both.0 (is_distinct-IsFound rest both.1),
    )

find_name-++ :
    (xs ys : Table) (name : String)
    → find_name (xs ++ ys) name
      ≡ elim (find_name xs name) [ none ↦ find_name ys name | some e ↦ some e ]
unfolding find_name
find_name-++ [] ys name = refl
find_name-++ ((k, e) ∷ xs) ys name = elim (Bool-cases (e.name =ₛ name)) [
  | inl same ↦ rw same refl
  | inr other ↦ rw other (find_name-++ xs ys name)
]

first_or :
    (o : Option TableEntry) {later : Option TableEntry} {d : TableEntry} (e : TableEntry)
    → (later ≡ some e → d ≡ e)
    → elim o [ none ↦ later | some c ↦ some c ] ≡ some e
    → elim o [ none ↦ d | some c ↦ c ] ≡ e
first_or none e otherwise found = otherwise found
first_or (some c) e otherwise found = ground (arith, found)

-- The search in the maps is the search in one table.
find_in_maps-flatten :
    (tables : List Table) (name : String) (e : TableEntry)
    → find_name (flatten tables) name ≡ some e
    → find_in_maps tables name ≡ e
unfolding find_in_maps flatten find_name
find_in_maps-flatten [] name e h = ground (arith, h)
find_in_maps-flatten (table ∷ rest) name e h =
    first_or (find_name table name) e (find_in_maps-flatten rest name e)
      (sym (find_name-++ table (flatten rest) name) ∙ h)

no_nop-All : (rows : Table) → no_nop rows ≡ true → All (λ row. (row.1.name =ₛ "nop") ≡ false) rows
unfolding no_nop
no_nop-All [] h = _
no_nop-All ((k, e) ∷ rest) h =
    let both = and_split _ _ h in (not-true (e.name =ₛ "nop") both.0, no_nop-All rest both.1)

All-flatten {ℓ} :
    (P : ℕ × TableEntry → Type ℓ) (tables : List Table)
    → All P (flatten tables)
    → All (All P) tables
unfolding flatten
All-flatten P [] h = _
All-flatten P (table ∷ rest) h =
    let both = All-append P table (flatten rest) h in (both.0, All-flatten P rest both.1)

named_row :
    (row : ℕ × TableEntry)
    → find_name (flatten all_isa_maps) row.1.name ≡ some row.1
    → (row.1.name =ₛ "nop") ≡ false
    → get_named_entry row.1.name ≡ row.1
unfolding get_named_entry
named_row row found other = rw other (find_in_maps-flatten all_isa_maps row.1.name row.1 found)

named_maps : All (λ row. get_named_entry row.1.name ≡ row.1) (flatten all_isa_maps)
unfolding IsFound
named_maps =
    let checks = and_split _ _ is_distinct-maps in
    All-zip (λ row. find_name (flatten all_isa_maps) row.1.name ≡ some row.1)
      (λ row. (row.1.name =ₛ "nop") ≡ false) (λ row. get_named_entry row.1.name ≡ row.1)
      (flatten all_isa_maps) named_row (is_distinct-IsFound (flatten all_isa_maps) checks.0)
      (no_nop-All (flatten all_isa_maps) checks.1)

named_unknown : get_named_entry unknown_instruction.name ≡ unknown_instruction
unfolding get_named_entry unknown_instruction find_in_maps find_name all_isa_maps isa_map_r
    isa_map_ri isa_map_mips32 isa_map_ij isa_map_cop0_rs isa_map_cop0_funct isa_map_cop1
    isa_map_cop1x isa_map_cop1_s isa_map_cop1_d isa_map_cop1_l isa_map_cop1_w isa_map_cop1i
    isa_map_movci isa_map_movcf_s isa_map_movcf_d
named_unknown = refl

named_nop : get_named_entry instr_nop.name ≡ instr_nop
unfolding get_named_entry instr_nop
named_nop = refl

-- The name of the entry of a word finds that entry again, whatever the word: also for `nop` and for
-- the words that have no entry.
pub get_named_entry-get_table_entry :
    (bytes : ℕ) → get_named_entry (get_table_entry bytes).name ≡ get_table_entry bytes
get_named_entry-get_table_entry bytes =
    get_table_entry-elim (λ e. get_named_entry e.name ≡ e) named_unknown bytes named_nop
      (All-flatten (λ row. get_named_entry row.1.name ≡ row.1) all_isa_maps named_maps)
