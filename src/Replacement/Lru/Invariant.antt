-- ===== src/Replacement/Lru/Invariant.antt =====
-- Every way of the set stands in the list exactly once, whatever is called.
use mipt_mips.Prelude.{
  ℕ, zero, suc, ◌+◌, ◌-◌, ◌<◌, ◌≡◌, ◌≢◌, refl, Option, none, some, List, [], ◌∷◌, ◌++◌, ◌==◌, ltb,
  leb, ◌&&◌, if◌then◌else◌, arith,
}
use mipt_mips.Replacement.Lru.{Lru, insert_ways, remove, last?, init, touch, set_to_erase, update}

abbrev pub count : ℕ → List ℕ → ℕ
count way [] = 0
count way (x ∷ l) = if x == way then suc (count way l) else count way l

pub count-remove :
    (w v : ℕ) (l : List ℕ) → count v (remove w l) ≡ (if w == v then count v l - 1 else count v l)
unfolding remove
count-remove w v [] = ground arith
count-remove w v (x ∷ l) = ground (arith, count-remove w v l)

count-append_last :
    (w v : ℕ) (l : List ℕ) → count v (l ++ w ∷ []) ≡ (if w == v then suc (count v l) else count v l)
count-append_last w v [] = refl
count-append_last w v (x ∷ l) = ground (arith, count-append_last w v l)

count-insert_ways :
    (left i v : ℕ) (l : List ℕ)
    → count v (insert_ways left i l)
      ≡ (if leb i v && ltb v (i + left) then suc (count v l) else count v l)
unfolding insert_ways
count-insert_ways zero i v l = ground arith
count-insert_ways (suc left) i v l = ground (arith, count-insert_ways left (i + 1) v (i ∷ l))

pub count-last? : (l : List ℕ) {v : ℕ} → last? l ≡ some v → 0 < count v l
unfolding last?
count-last? [] h = absurd (ground arith)
count-last? (x ∷ []) h = ground arith
count-last? (x ∷ y ∷ l) h = ground (arith, count-last? (y ∷ l) h)

last?-ne-none : (l : List ℕ) (v : ℕ) → 0 < count v l → last? l ≢ none
unfolding last?
last?-ne-none [] v h e = absurd (omega arith)
last?-ne-none (x ∷ []) v h e = absurd (ground arith)
last?-ne-none (x ∷ y ∷ l) v h e = ground (arith, last?-ne-none (y ∷ l) y)

abbrev pub IsOrder : Lru → Type 0
IsOrder s = (way : ℕ) → count way s.lru_list ≡ (if ltb way s.ways then 1 else 0)

-- The constructor lists each way once.
pub init-IsOrder : (ways : ℕ) → IsOrder (init ways)
unfolding init
init-IsOrder ways way = ground (arith, count-insert_ways ways 0 way [])

module _ (s : Lru) (order : IsOrder s) where
  pub touch-IsOrder : (way : ℕ) → way < s.ways → IsOrder (touch s way)
  unfolding touch
  touch-IsOrder way inside v = ground (arith, count-remove way v s.lru_list, order v, order way)

  pub set_to_erase-IsOrder : (way : ℕ) → way < s.ways → IsOrder (set_to_erase s way)
  unfolding set_to_erase
  set_to_erase-IsOrder way inside v = ground (
    arith,
    count-remove way v s.lru_list,
    count-append_last way v (remove way s.lru_list),
    order v,
    order way,
  )

  -- With every way in the list once and at least one way, `update` returns the last way of the
  -- list, which lies in the set, and is the touch of that way.
  pub update_lem :
      0 < s.ways
      → (victim : ℕ) × (victim < s.ways)
        × (last? s.lru_list ≡ some victim)
        × (update s ≡ some (victim, touch s victim))
  unfolding update touch
  update_lem pos = go (last? s.lru_list) refl
    where
      go :
          (o : Option ℕ)
          → last? s.lru_list ≡ o
          → (victim : ℕ) × (victim < s.ways)
            × (last? s.lru_list ≡ some victim)
            × (update s ≡ some (victim, touch s victim))
      go none e = absurd (last?-ne-none s.lru_list 0 (ground (arith, order 0)) e)
      go (some v) e = (v, ground (arith, order v, count-last? s.lru_list e), e, rw (e, update))
