-- ===== src/InstrCache/Erasure.antt =====
-- The removal of a value.
use mipt_mips.Prelude.{
  ℕ, ◌<◌, ◌≡◌, ◌≢◌, ◌↔◌, sym, ap, ◌∙◌, true, false, some, ◌==◌, get_or, arith, Bool-cases,
  Option-cases, inl, inr,
}
use mipt_mips.InstrCache.{IsKey, HashTable, InstrCache, find, erase}
use mipt_mips.InstrCache.Coherence.{IsCoherent, erase_place, key-lt}
use mipt_mips.InstrCache.Lookup.{find_iff, find_missing, place_unique}

module _ {ℓ} (h : HashTable) {V : Type ℓ} where
  -- An emptied place.
  emptied :
      (capacity : ℕ) (c e : InstrCache h V) (i key : ℕ)
      → IsCoherent h capacity c
      → IsCoherent h capacity e
      → IsKey key
      → get_or c.keys i 0 ≡ key
      → get_or e.keys i 0 ≡ 0
      → ((j : ℕ) → j ≢ i → get_or e.keys j 0 ≡ get_or c.keys j 0)
      → ((j : ℕ) → j ≢ i → e.storage.storage j ≡ c.storage.storage j)
      → (k : ℕ) (u : V) → IsKey k
      → (find h V e k ≡ (true, some u)) ↔ ((find h V c k ≡ (true, some u)) × (k ≢ key))
  emptied capacity c e i key ok ok1 kk held empty keys values k u hk = (
    (λ found.
        let (j, there, value) = (find_iff h capacity e k u ok1 hk).0 found in
        let apart : j ≢ i = λ same. hk.0 (sym there ∙ ap (λ l. get_or e.keys l 0) same ∙ empty) in
        let held0 : get_or c.keys j 0 ≡ k = sym (keys j apart) ∙ there in
        (
          (find_iff h capacity c k u ok hk).1 (j, held0, sym (values j apart) ∙ value),
          (λ same. apart (place_unique h capacity c k j i ok hk held0 (held ∙ sym same))),
        )),
    λ (found, other).
        let (j, there, value) = (find_iff h capacity c k u ok hk).0 found in
        let apart : j ≢ i = λ same. other (sym there ∙ ap (λ l. get_or c.keys l 0) same ∙ held) in
        (find_iff h capacity e k u ok1 hk).1 (j, keys j apart ∙ there, values j apart ∙ value),
  )

  not_found :
      (capacity : ℕ) (c : InstrCache h V) (key : ℕ)
      → IsCoherent h capacity c
      → IsKey key
      → ((j : ℕ) → get_or c.keys j 0 ≢ key)
      → (find h V c key).0 ≡ false
  not_found capacity c key ok kk nowhere = elim (Option-cases (h.lookup c.pointers key)) [
    | inl missing ↦ ap (λ r. r.0) (find_missing h c key missing)
    | inr (j, found) ↦ absurd (nowhere j ((ok.at key j kk).0 found))
  ]

  erase_key :
      (capacity : ℕ) (c : InstrCache h V) (i key : ℕ)
      → IsCoherent h capacity c
      → i < capacity
      → get_or c.keys i 0 ≡ key
      → let e = erase h V c key in
        IsCoherent h capacity e
        × (get_or e.keys i 0 ≡ 0)
        × ((j : ℕ) → j ≢ i → get_or e.keys j 0 ≡ get_or c.keys j 0)
        × ((j : ℕ) → j ≢ i → e.storage.storage j ≡ c.storage.storage j)
  erase_key capacity c i key ok inside held = rw (sym held) (erase_place h capacity c i ok inside)

  -- After `erase` every key but the erased one is found as before.
  pub erase-find :
      (capacity : ℕ) (c : InstrCache h V) (key : ℕ)
      → IsCoherent h capacity c
      → IsKey key
      → (find h V c key).0 ≡ true
      → IsCoherent h capacity (erase h V c key)
        × ((find h V (erase h V c key) key).0 ≡ false)
        × ((k : ℕ) (u : V)
            → IsKey k
            → (find h V (erase h V c key) k ≡ (true, some u))
              ↔ ((find h V c k ≡ (true, some u)) × (k ≢ key)))
  erase-find capacity c key ok kk present = elim (Option-cases (h.lookup c.pointers key)) [
    | inl missing ↦ absurd (ground (arith, present, find_missing h c key missing))
    | inr (i, found) ↦
        let held : get_or c.keys i 0 ≡ key = (ok.at key i kk).0 found in
        let inside : i < capacity = key-lt h capacity c i ok (λ gone. kk.0 (sym held ∙ gone)) in
        let (ok1, empty, keys, values) = erase_key capacity c i key ok inside held in
        let e : InstrCache h V = erase h V c key in
        (
          ok1,
          not_found capacity e key ok1 kk λ j there. elim (Bool-cases (j == i)) [
            | inl same ↦
                let ji : j ≡ i = ground arith in
                kk.0 (sym there ∙ ap (λ l. get_or e.keys l 0) ji ∙ empty)
            | inr apart ↦
                let ne : j ≢ i = ground arith in
                ne (place_unique h capacity c key j i ok kk (sym (keys j ne) ∙ there) held)
          ],
          emptied capacity c e i key ok ok1 kk held empty keys values,
        )
  ]
