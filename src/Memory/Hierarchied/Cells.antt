-- ===== src/Memory/Hierarchied/Cells.antt =====
-- The memory as an array in three dimensions: a page that is not there holds zeros.
use mipt_mips.Prelude.{
  ℕ, ◌^◌, ◌<◌, ◌≡◌, ◌⊎◌, inl, inr, refl, ap, ◌∙◌, true, false, ◌&&◌, List, [], ◌∷◌, ◌==◌,
  if◌then◌else◌, length, set, replicate, get_or, get_or-set, get_or-replicate, length-set,
  length-replicate, arith, Bool-cases,
}
use mipt_mips.Memory.Hierarchied.{
  Mapping, Page, Pages, Mem, is_empty, new_memory, get_set, get_page, get_offset, check, read_byte,
  check_and_read_byte, alloc, write_byte, alloc_and_write_byte,
}
use mipt_mips.Memory.Hierarchied.Addresses.{IsMapping, get_set-lt, get_page-lt, get_offset-lt}

abbrev pub cell : Mem → ℕ → ℕ → ℕ → ℕ
cell memory i j k = get_or (get_or (get_or memory i []) j []) k 0

is_empty-true {ℓ} : {A : Type ℓ} (xs : List A) → is_empty xs ≡ true → xs ≡ []
is_empty-true [] h = refl
is_empty-true (x ∷ xs) h = ground arith

length-is_empty {ℓ} : {A : Type ℓ} (xs : List A) → is_empty xs ≡ false → length xs ≡ 0 → [] ≡ xs
length-is_empty [] h e = refl
length-is_empty (x ∷ xs) h e = absurd (omega arith)

-- Every set is empty or has all of its pages, and every page is empty or has all of its bytes.
pub IsMemory : Mapping → Mem → Type 0
IsMemory m memory =
    (length memory ≡ 2 ^ m.set_bits)
    × (((i : ℕ) → (get_or memory i [] ≡ []) ⊎ (length (get_or memory i []) ≡ 2 ^ m.page_bits))
        × ((i j : ℕ)
            → (get_or (get_or memory i []) j [] ≡ [])
              ⊎ (length (get_or (get_or memory i []) j []) ≡ 2 ^ m.offset_bits)))

pub new_memory-IsMemory : (m : Mapping) → IsMemory m (new_memory m)
unfolding IsMemory new_memory
new_memory-IsMemory m = (
  length-replicate (2 ^ m.set_bits) [],
  (
    λ i. inl (get_or-replicate (2 ^ m.set_bits) i []),
    λ i j. inl (ap (λ (p : Pages). get_or p j []) (get_or-replicate (2 ^ m.set_bits) i [])),
  ),
)

-- A read is that of a cell, whether its page is there or not.
pub check_and_read_byte_lem :
    (m : Mapping) (addr : ℕ) (memory : Mem)
    → check_and_read_byte m addr memory
      ≡ cell memory (get_set m addr) (get_page m addr) (get_offset m addr)
unfolding check_and_read_byte check read_byte
check_and_read_byte_lem m addr memory =
    let pages : Pages = get_or memory (get_set m addr) [] in
    let page : Page = get_or pages (get_page m addr) [] in
    elim (Bool-cases (is_empty pages)) [
      | inl none ↦ rw (is_empty-true pages none) refl
      | inr some ↦ rw some (elim (Bool-cases (is_empty page)) [
        | inl none ↦ rw (is_empty-true page none) refl
        | inr there ↦ rw there refl
      ])
    ]

resized {ℓ} : {A : Type ℓ} → ℕ → A → List A → List A
resized n d xs = if is_empty xs then replicate n d else xs

get_or-resized {ℓ} :
    {A : Type ℓ} (n : ℕ) (d : A) (xs : List A) (i : ℕ) → get_or (resized n d xs) i d ≡ get_or xs i d
unfolding resized
get_or-resized n d [] i = get_or-replicate n i d
get_or-resized n d (x ∷ xs) i = refl

length-resized {ℓ} :
    {A : Type ℓ} (n : ℕ) (d : A) (xs : List A)
    → (xs ≡ []) ⊎ (length xs ≡ n)
    → length (resized n d xs) ≡ n
unfolding resized
length-resized n d [] h = length-replicate n d
length-resized n d (x ∷ xs) (inl e) = ground (arith, ap length e)
length-resized n d (x ∷ xs) (inr e) = e

module _ (m : Mapping) (memory : Mem) (well : IsMemory m memory) (mapped : IsMapping m)
    (addr v : ℕ) where
  pages : Pages
  pages = get_or memory (get_set m addr) []

  grown : Pages
  unfolding pages resized
  grown = resized (2 ^ m.page_bits) [] pages

  page : Page
  unfolding grown resized
  page = resized (2 ^ m.offset_bits) 0 (get_or grown (get_page m addr) [])

  row : Pages
  unfolding grown page
  row = set (set grown (get_page m addr) page) (get_page m addr) (set page (get_offset m addr) v)

  length-grown : length grown ≡ 2 ^ m.page_bits
  unfolding IsMemory grown pages
  length-grown = length-resized (2 ^ m.page_bits) [] pages (well.1.0 (get_set m addr))

  get_or-grown : (j : ℕ) → get_or grown j [] ≡ get_or pages j []
  unfolding grown
  get_or-grown j = get_or-resized (2 ^ m.page_bits) [] pages j

  length-page : length page ≡ 2 ^ m.offset_bits
  unfolding IsMemory page pages
  length-page =
      length-resized (2 ^ m.offset_bits) 0 (get_or grown (get_page m addr) [])
        (rw (get_or-grown (get_page m addr)) (well.1.1 (get_set m addr) (get_page m addr)))

  get_or-page : (k : ℕ) → get_or page k 0 ≡ cell memory (get_set m addr) (get_page m addr) k
  unfolding page pages
  get_or-page k =
      get_or-resized (2 ^ m.offset_bits) 0 (get_or grown (get_page m addr) []) k
      ∙ ap (λ (p : Page). get_or p k 0) (get_or-grown (get_page m addr))

  get_or-row :
      (j : ℕ)
      → get_or row j []
        ≡ (if get_page m addr == j then set page (get_offset m addr) v else get_or pages j [])
  unfolding row
  get_or-row j =
      let inside : get_page m addr < length grown =
        omega (arith, length-grown, get_page-lt m mapped addr) in
      get_or-set (set grown (get_page m addr) page) (get_page m addr) j
        (set page (get_offset m addr) v) [] (omega (arith, length-set grown (get_page m addr) page))
      ∙ elim (Bool-cases (get_page m addr == j)) [
        | inl same ↦ rw same refl
        | inr apart ↦
            rw apart
              (get_or-set grown (get_page m addr) j page [] inside ∙ rw apart (get_or-grown j))
      ]

  table : Mem
  unfolding grown page
  table = set memory (get_set m addr) (set grown (get_page m addr) page)

  written_lem : alloc_and_write_byte m addr v memory ≡ set table (get_set m addr) row
  unfolding alloc_and_write_byte alloc write_byte table row page grown pages resized IsMemory
  written_lem =
      let wide : get_set m addr < length memory = omega (arith, well.0, get_set-lt m mapped addr) in
      let inside : get_page m addr < length grown =
        omega (arith, length-grown, get_page-lt m mapped addr) in
      let s : (get_set m addr == get_set m addr) ≡ true = ground arith in
      let p : (get_page m addr == get_page m addr) ≡ true = ground arith in
      let there : Pages = set grown (get_page m addr) page in
      let a : get_or table (get_set m addr) [] ≡ there =
        get_or-set memory (get_set m addr) (get_set m addr) there [] wide ∙ rw s refl in
      let b : get_or there (get_page m addr) [] ≡ page =
        get_or-set grown (get_page m addr) (get_page m addr) page [] inside ∙ rw p refl in
      ap
        (λ (t : Pages).
          set table (get_set m addr)
            (set t (get_page m addr) (set (get_or t (get_page m addr) []) (get_offset m addr) v)))
        a
      ∙ ap
          (λ (t : Page).
            set table (get_set m addr) (set there (get_page m addr) (set t (get_offset m addr) v)))
          b

  get_or-written :
      (i : ℕ)
      → get_or (alloc_and_write_byte m addr v memory) i []
        ≡ (if get_set m addr == i then row else get_or memory i [])
  unfolding table IsMemory
  get_or-written i =
      let wide : get_set m addr < length memory = omega (arith, well.0, get_set-lt m mapped addr) in
      let there : Pages = set grown (get_page m addr) page in
      ap (λ (t : Mem). get_or t i []) written_lem
      ∙ get_or-set table (get_set m addr) i row []
          (omega (arith, length-set memory (get_set m addr) there))
      ∙ elim (Bool-cases (get_set m addr == i)) [
        | inl same ↦ rw same refl
        | inr apart ↦ rw apart (get_or-set memory (get_set m addr) i there [] wide ∙ rw apart refl)
      ]

  -- A write changes one cell.
  pub cell-alloc_and_write_byte :
      (i j k : ℕ)
      → cell (alloc_and_write_byte m addr v memory) i j k ≡ (
          if get_set m addr == i && get_page m addr == j && get_offset m addr == k
          then v
          else cell memory i j k)
  unfolding pages
  cell-alloc_and_write_byte i j k =
      let inside : get_offset m addr < length page =
        omega (arith, length-page, get_offset-lt m mapped addr) in
      ap (λ (t : Pages). get_or (get_or t j []) k 0) (get_or-written i)
      ∙ elim (Bool-cases (get_set m addr == i)) [
        | inr apart ↦ rw apart refl
        | inl same_set ↦ rw same_set (
            ap (λ (t : Page). get_or t k 0) (get_or-row j)
            ∙ elim (Bool-cases (get_page m addr == j)) [
              | inr apart ↦ rw apart (ap (λ (n : ℕ). cell memory n j k) (ground arith))
              | inl same_page ↦ rw same_page (
                  get_or-set page (get_offset m addr) k v 0 inside
                  ∙ elim (Bool-cases (get_offset m addr == k)) [
                    | inl here ↦ rw here refl
                    | inr apart ↦ rw apart (
                        get_or-page k
                        ∙ ap (λ (n : ℕ). cell memory n (get_page m addr) k) (ground arith)
                        ∙ ap (λ (n : ℕ). cell memory i n k) (ground arith))
                  ])
            ])
      ]

  pub alloc_and_write_byte-IsMemory : IsMemory m (alloc_and_write_byte m addr v memory)
  unfolding IsMemory row pages table
  alloc_and_write_byte-IsMemory =
      let there : Pages = set grown (get_page m addr) page in
      (
        ap length written_lem
            ∙ length-set table (get_set m addr) row
            ∙ length-set memory (get_set m addr) there
            ∙ well.0,
        (
          λ i. elim (Bool-cases (get_set m addr == i)) [
            | inr apart ↦ rw (get_or-written i, apart) (well.1.0 i)
            | inl same ↦
                rw (get_or-written i, same)
                  (inr (
                    length-set there (get_page m addr) (set page (get_offset m addr) v)
                    ∙ length-set grown (get_page m addr) page
                    ∙ length-grown))
          ],
          λ i j. elim (Bool-cases (get_set m addr == i)) [
            | inr apart ↦ rw (get_or-written i, apart) (well.1.1 i j)
            | inl same ↦
                rw (get_or-written i, same, get_or-row j)
                  (elim (Bool-cases (get_page m addr == j)) [
                    | inl here ↦ rw here (inr (length-set page (get_offset m addr) v ∙ length-page))
                    | inr apart ↦ rw apart (well.1.1 (get_set m addr) j)
                  ])
          ],
        ),
      )
