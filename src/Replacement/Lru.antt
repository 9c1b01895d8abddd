-- ===== src/Replacement/Lru.antt =====
-- `class LRU` of infra/replacement/cache_replacement.cpp. `lru_hash[way]` points to the node of
-- `way` in `lru_list`, so a splice of that node takes `way` out of the list.
pub mod Invariant
pub mod Recency
use mipt_mips.Prelude.{
  ℕ, zero, suc, ◌+◌, Option, none, some, List, [], ◌∷◌, ◌++◌, ◌==◌, if◌then◌else◌,
}

pub record Lru : Type 0 where
  pub lru_list : List ℕ
  pub ways : ℕ

-- The loop of the constructor: `i` is inserted at the head.
pub insert_ways : ℕ → ℕ → List ℕ → List ℕ
insert_ways zero i l = l
insert_ways (suc left) i l = insert_ways left (i + 1) (i ∷ l)

pub remove : ℕ → List ℕ → List ℕ
remove way [] = []
remove way (x ∷ l) = if x == way then l else x ∷ remove way l

pub last? : List ℕ → Option ℕ
last? [] = none
last? (x ∷ []) = some x
last? (x ∷ y ∷ l) = last? (y ∷ l)

unfoldable pub init : ℕ → Lru
unfolding insert_ways
init ways = record { lru_list = insert_ways ways 0 []; ways = ways }

unfoldable pub touch : Lru → ℕ → Lru
unfolding remove
touch s way = record s { lru_list = way ∷ remove way s.lru_list }

unfoldable pub set_to_erase : Lru → ℕ → Lru
unfolding remove
set_to_erase s way = record s { lru_list = remove way s.lru_list ++ way ∷ [] }

-- `none` where `back()` is called on an empty list.
unfoldable pub update : Lru → Option (ℕ × Lru)
unfolding last? remove
update s = elim (last? s.lru_list) [
  | none ↦ none
  | some lru_elem ↦ some (lru_elem, record s { lru_list = lru_elem ∷ remove lru_elem s.lru_list })
]
