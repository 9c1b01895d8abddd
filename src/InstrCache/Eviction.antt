-- ===== src/InstrCache/Eviction.antt =====
-- The insertion of a value: it takes the place used least recently.
use mipt_mips.Prelude.{
  ℕ, ◌<◌, ◌≡◌, ◌≢◌, ◌↔◌, refl, sym, ap, ◌∙◌, true, false, none, some, get_or, get_or-set, arith,
  Option-cases, inl, inr,
}
use mipt_mips.Replacement.Lru.{Lru, last?}
use mipt_mips.Replacement.Lru as Lru
use mipt_mips.Replacement.Lru.Invariant.{update_lem}
use mipt_mips.InstrCache.{IsKey, HashTable, InstrCache, find, erase, place, allocate_key, update}
use mipt_mips.InstrCache.Coherence.{IsCoherent, erase_place, place-IsCoherent}
use mipt_mips.InstrCache.Lookup.{find_iff, lookup_of_find, touched-IsCoherent, place_unique}

module _ {ℓ} (h : HashTable) {V : Type ℓ} where
  update_taken :
      (c : InstrCache h V) (key i : ℕ) (lru : Lru) (v : V)
      → h.lookup c.pointers key ≡ none
      → Lru.update c.lru ≡ some (i, lru)
      → update h V c key v
        ≡ some (place h V (erase h V (record c { lru = lru }) (get_or c.keys i 0)) i key v)
  unfolding update allocate_key
  update_taken c key i lru v missing taken = rw (missing, update) (rw (taken, allocate_key) refl)

  -- What `allocate` does to an emptied place, seen from the keys and the values.
  place_keys :
      (capacity : ℕ) (e : InstrCache h V) (i key : ℕ) (v : V)
      → IsCoherent h capacity e
      → i < capacity
      → (get_or (place h V e i key v).keys i 0 ≡ key)
        × ((place h V e i key v).storage.storage i ≡ some v)
        × ((j : ℕ) → j ≢ i → get_or (place h V e i key v).keys j 0 ≡ get_or e.keys j 0)
        × ((j : ℕ) → j ≢ i → (place h V e i key v).storage.storage j ≡ e.storage.storage j)
  unfolding place
  place_keys capacity e i key v ok inside = (
    ground (arith, get_or-set e.keys i i key 0 (omega (arith, ok.all_keys))),
    ground arith,
    (λ j ne. ground (arith, get_or-set e.keys i j key 0 (omega (arith, ok.all_keys)), ne)),
    (λ j ne. ground (arith, ne)),
  )

  -- The place of the victim gets the key and the value, and the others stay.
  replaced :
      (capacity : ℕ) (c : InstrCache h V) (i key : ℕ) (v : V)
      → IsCoherent h capacity c
      → i < capacity
      → IsKey key
      → h.lookup c.pointers key ≡ none
      → let c' = place h V (erase h V c (get_or c.keys i 0)) i key v in
        IsCoherent h capacity c'
        × (get_or c'.keys i 0 ≡ key)
        × (c'.storage.storage i ≡ some v)
        × ((j : ℕ) → j ≢ i → get_or c'.keys j 0 ≡ get_or c.keys j 0)
        × ((j : ℕ) → j ≢ i → c'.storage.storage j ≡ c.storage.storage j)
  replaced capacity c i key v ok inside kk missing =
      let (ok1, empty, keys1, values1) = erase_place h capacity c i ok inside in
      let e : InstrCache h V = erase h V c (get_or c.keys i 0) in
      let gone : h.lookup e.pointers key ≡ none = elim (Option-cases (h.lookup e.pointers key)) [
        | inl none_there ↦ none_there
        | inr (j, there) ↦
            let held : get_or e.keys j 0 ≡ key = (ok1.at key j kk).0 there in
            let apart : j ≢ i =
              λ same. kk.0 (sym held ∙ ap (λ l. get_or e.keys l 0) same ∙ empty) in
            absurd (ground (arith, missing, (ok.at key j kk).1 (sym (keys1 j apart) ∙ held)))
      ] in
      let (key_at, value_at, keys2, values2) = place_keys capacity e i key v ok1 inside in
      (
        place-IsCoherent h capacity e i key v ok1 inside kk gone empty,
        key_at,
        value_at,
        (λ j apart. keys2 j apart ∙ keys1 j apart),
        (λ j apart. values2 j apart ∙ values1 j apart),
      )

  -- So every other key but that of the victim is found as before.
  others :
      (capacity : ℕ) (c c' : InstrCache h V) (i key : ℕ)
      → IsCoherent h capacity c
      → IsCoherent h capacity c'
      → get_or c'.keys i 0 ≡ key
      → ((j : ℕ) → j ≢ i → get_or c'.keys j 0 ≡ get_or c.keys j 0)
      → ((j : ℕ) → j ≢ i → c'.storage.storage j ≡ c.storage.storage j)
      → (k : ℕ) (u : V) → IsKey k
      → k ≢ key
      → (find h V c' k ≡ (true, some u))
        ↔ ((find h V c k ≡ (true, some u)) × (k ≢ get_or c.keys i 0))
  others capacity c c' i key ok ok' key_at keys values k u hk other = (
    (λ found.
        let (j, held, value) = (find_iff h capacity c' k u ok' hk).0 found in
        let apart : j ≢ i = λ same. other (sym held ∙ ap (λ l. get_or c'.keys l 0) same ∙ key_at) in
        let held0 : get_or c.keys j 0 ≡ k = sym (keys j apart) ∙ held in
        (
          (find_iff h capacity c k u ok hk).1 (j, held0, sym (values j apart) ∙ value),
          (λ same. apart (place_unique h capacity c k j i ok hk held0 (sym same))),
        )),
    λ (found, kept).
        let (j, held, value) = (find_iff h capacity c k u ok hk).0 found in
        let apart : j ≢ i = λ same. kept (sym held ∙ ap (λ l. get_or c.keys l 0) same) in
        (find_iff h capacity c' k u ok' hk).1 (j, keys j apart ∙ held, values j apart ∙ value),
  )

  -- In a coherent cache a value for a key that is not found takes the place used least recently. It
  -- is found from then on; of the values of the other keys, that of the place taken is lost.
  pub update-find :
      (capacity : ℕ) (c : InstrCache h V) (key : ℕ) (v : V)
      → IsCoherent h capacity c
      → 0 < capacity
      → IsKey key
      → (find h V c key).0 ≡ false
      → (victim : ℕ) × (c' : InstrCache h V) × (last? c.lru.lru_list ≡ some victim)
        × (update h V c key v ≡ some c')
        × IsCoherent h capacity c'
        × (find h V c' key ≡ (true, some v))
        × ((k : ℕ) (u : V)
            → IsKey k
            → k ≢ key
            → (find h V c' k ≡ (true, some u))
              ↔ ((find h V c k ≡ (true, some u)) × (k ≢ get_or c.keys victim 0)))
  update-find capacity c key v ok pos kk absent =
      let missing = lookup_of_find h c key absent in
      let (victim, inside, last, taken) = update_lem c.lru ok.order (omega (arith, ok.all_ways)) in
      let below : victim < capacity = omega (arith, ok.all_ways) in
      let c0 : InstrCache h V = record c { lru = Lru.touch c.lru victim } in
      let (ok', key_at, value_at, keys, values) =
        replaced capacity c0 victim key v (touched-IsCoherent h capacity c victim ok below) below kk
          missing in
      (
        victim,
        place h V (erase h V c0 (get_or c.keys victim 0)) victim key v,
        last,
        update_taken c key victim (Lru.touch c.lru victim) v missing taken,
        ok',
        (find_iff h capacity _ key v ok' kk).1 (victim, key_at, value_at),
        others capacity c _ victim key ok ok' key_at keys values,
      )
