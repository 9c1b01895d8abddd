-- ===== src/InstrCache/Lookup.antt =====
-- What the instruction cache finds: a value that was stored is found under its key until its place is
-- taken, and nothing else is.
use mipt_mips.Prelude.{
  ℕ, ◌-◌, ◌^◌, ◌<◌, ◌≡◌, ◌≢◌, ◌↔◌, refl, sym, ap, ◌∙◌, true, false, none, some, ◌==◌, get_or, arith,
  Bool-cases, Option-cases, inl, inr,
}
use mipt_mips.Replacement.Lru.{Lru, last?}
use mipt_mips.Replacement.Lru as Lru
use mipt_mips.Replacement.Lru.Invariant.{touch-IsOrder}
use mipt_mips.InstrCache.{IsKey, HashTable, InstrCache, find, touch, update}
use mipt_mips.InstrCache.Coherence.{IsCoherent, key-lt}

module _ {ℓ} (h : HashTable) {V : Type ℓ} where
  pub find_missing :
      (c : InstrCache h V) (k : ℕ)
      → h.lookup c.pointers k ≡ none
      → find h V c k ≡ (false, c.storage.storage c.storage.space)
  unfolding find
  find_missing c k e = rw (e, find) refl

  find_found :
      (c : InstrCache h V) (k i : ℕ)
      → h.lookup c.pointers k ≡ some i
      → find h V c k ≡ (true, c.storage.storage i)
  unfolding find
  find_found c k i e = rw (e, find) refl

  -- A value is found exactly if it is stored at a place of the key.
  pub find_iff :
      (capacity : ℕ) (c : InstrCache h V) (k : ℕ) (u : V)
      → IsCoherent h capacity c
      → IsKey k
      → (find h V c k ≡ (true, some u))
        ↔ ((i : ℕ) × (get_or c.keys i 0 ≡ k) × (c.storage.storage i ≡ some u))
  find_iff capacity c k u ok key = (
    (λ e. elim (Option-cases (h.lookup c.pointers k)) [
      | inl missing ↦ absurd (ground (arith, e, find_missing c k missing))
      | inr (i, found) ↦ (i, (ok.at k i key).0 found, ground (arith, e, find_found c k i found))
    ]),
    λ (i, held, value). find_found c k i ((ok.at k i key).1 held) ∙ ap (λ o. (true, o)) value,
  )

  -- What is found is an object.
  pub find-some :
      (capacity : ℕ) (c : InstrCache h V) (k : ℕ)
      → IsCoherent h capacity c
      → k ≢ 2 ^ 64 - 1
      → (find h V c k).0 ≡ true
      → IsKey k × ((v : V) × (find h V c k ≡ (true, some v)))
  find-some capacity c k ok low present = elim (Bool-cases (k == 0)) [
    | inl start ↦
        let e : k ≡ 0 = ground arith in
        absurd (ground (arith, present, find_missing c k (rw e (h.lookup-empty_key c.pointers))))
    | inr later ↦
        let key : IsKey k = ((λ z. ground arith), low) in
        elim (Option-cases (h.lookup c.pointers k)) [
          | inl missing ↦ absurd (ground (arith, present, find_missing c k missing))
          | inr (i, found) ↦
              let held : get_or c.keys i 0 ≡ k = (ok.at k i key).0 found in
              let (v, e) = ok.stored i (λ gone. key.0 (sym held ∙ gone)) in
              (key, (v, (find_iff capacity c k v ok key).1 (i, held, e)))
        ]
  ]

  -- A key that is not found has no place.
  pub lookup_of_find :
      (c : InstrCache h V) (k : ℕ) → (find h V c k).0 ≡ false → h.lookup c.pointers k ≡ none
  lookup_of_find c k e = elim (Option-cases (h.lookup c.pointers k)) [
    | inl missing ↦ missing
    | inr (i, found) ↦ absurd (ground (arith, e, find_found c k i found))
  ]

  pub touched-IsCoherent :
      (capacity : ℕ) (c : InstrCache h V) (i : ℕ)
      → IsCoherent h capacity c
      → i < capacity
      → IsCoherent h capacity (record c { lru = Lru.touch c.lru i })
  unfolding Lru.touch
  touched-IsCoherent capacity c i ok inside = record {
    all_ways = ok.all_ways;
    order = touch-IsOrder c.lru ok.order i (omega (arith, ok.all_ways));
    all_keys = ok.all_keys;
    no_deleted = ok.no_deleted;
    at = ok.at;
    stored = ok.stored;
  }

  -- No two places have one key.
  pub place_unique :
      (capacity : ℕ) (c : InstrCache h V) (k i j : ℕ)
      → IsCoherent h capacity c
      → IsKey k
      → get_or c.keys i 0 ≡ k
      → get_or c.keys j 0 ≡ k
      → i ≡ j
  place_unique capacity c k i j ok key ei ej =
      ground (arith, (ok.at k i key).1 ei, (ok.at k j key).1 ej)

  touch_found :
      (c : InstrCache h V) (key i : ℕ)
      → h.lookup c.pointers key ≡ some i
      → touch h V c key ≡ record c { lru = Lru.touch c.lru i }
  unfolding touch
  touch_found c key i found = rw (found, touch) refl

  update_found :
      (c : InstrCache h V) (key i : ℕ) (v : V)
      → h.lookup c.pointers key ≡ some i
      → update h V c key v ≡ some (touch h V c key)
  unfolding update
  update_found c key i v found = rw (found, update) refl

  -- A key that is found is only touched by `update`, and every key is found as before.
  pub touch-find :
      (capacity : ℕ) (c : InstrCache h V) (key : ℕ) (v : V)
      → IsCoherent h capacity c
      → IsKey key
      → (find h V c key).0 ≡ true
      → (update h V c key v ≡ some (touch h V c key))
        × IsCoherent h capacity (touch h V c key)
        × ((k : ℕ) → find h V (touch h V c key) k ≡ find h V c k)
  unfolding find
  touch-find capacity c key v ok kk present = elim (Option-cases (h.lookup c.pointers key)) [
    | inl missing ↦ absurd (ground (arith, present, missing))
    | inr (i, found) ↦
        let held : get_or c.keys i 0 ≡ key = (ok.at key i kk).0 found in
        let inside : i < capacity = key-lt h capacity c i ok (λ gone. kk.0 (sym held ∙ gone)) in
        (
          update_found c key i v found,
          rw (touch_found c key i found) (touched-IsCoherent capacity c i ok inside),
          (λ k. rw (touch_found c key i found) refl),
        )
  ]
