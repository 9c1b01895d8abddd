-- ===== src/InstrCache/Coherence.antt =====
-- The hash map of the instruction cache says where each key is, and every place with a key holds a
-- value: a new cache, an eviction and an insertion keep it so.
use mipt_mips.Prelude.{
  ℕ, zero, suc, ◌+◌, ◌-◌, ◌^◌, ◌<◌, ◌≡◌, ◌≢◌, ◌↔◌, refl, ◌∙◌, none, some, ◌==◌, if◌then◌else◌, ltb,
  length, get_or, set, get_or-set, get_or-replicate, length-set, length-replicate, get_or_past,
  arith, Bool-cases, inl, inr,
}
use mipt_mips.Ports.{destroy}
use mipt_mips.Replacement.Lru.{Lru}
use mipt_mips.Replacement.Lru as Lru
use mipt_mips.Replacement.Lru.Invariant.{IsOrder, init-IsOrder, touch-IsOrder, set_to_erase-IsOrder}
use mipt_mips.InstrCache.{IsKey, HashTable, InstrCache, touch_ways, new_cache, erase, place}

touch_ways-IsOrder :
    (left i : ℕ) (lru : Lru)
    → IsOrder lru
    → left + i ≡ lru.ways
    → IsOrder (touch_ways left i lru) × ((touch_ways left i lru).ways ≡ lru.ways)
unfolding touch_ways Lru.touch
touch_ways-IsOrder zero i lru ok e = (ok, refl)
touch_ways-IsOrder (suc left) i lru ok e =
    touch_ways-IsOrder left (suc i) (Lru.touch lru i) (touch-IsOrder lru ok i (omega (arith, e)))
      (omega (arith, e))

module _ {ℓ} (h : HashTable) {V : Type ℓ} where
  pub record IsCoherent (capacity : ℕ) (c : InstrCache h V) : Type ℓ where
    pub all_ways : c.lru.ways ≡ capacity
    pub order : IsOrder c.lru
    pub all_keys : length c.keys ≡ capacity
    pub no_deleted : (i : ℕ) → get_or c.keys i 0 ≢ 2 ^ 64 - 1
    pub at : (k i : ℕ) → IsKey k → (h.lookup c.pointers k ≡ some i) ↔ (get_or c.keys i 0 ≡ k)
    pub stored : (i : ℕ) → get_or c.keys i 0 ≢ 0 → (v : V) × (c.storage.storage i ≡ some v)

  -- A place with a key is one of the capacity.
  pub key-lt :
      (capacity : ℕ) (c : InstrCache h V) (i : ℕ)
      → IsCoherent capacity c
      → get_or c.keys i 0 ≢ 0
      → i < capacity
  key-lt capacity c i ok held = elim (Bool-cases (ltb i capacity)) [
    | inl below ↦ ground arith
    | inr past ↦ absurd (held (get_or_past c.keys i 0 (ground (arith, ok.all_keys))))
  ]

  erase_missing :
      (c : InstrCache h V) (key : ℕ) → h.lookup c.pointers key ≡ none → erase h V c key ≡ c
  unfolding erase
  erase_missing c key e = rw (e, erase) refl

  -- What `erase` leaves where the key is at a place.
  abbrev without : InstrCache h V → ℕ → ℕ → InstrCache h V
  without c key i = record {
    keys = set c.keys i 0;
    pointers = h.remove c.pointers key;
    storage = destroy c.storage i;
    lru = Lru.set_to_erase c.lru i;
  }

  erase_found :
      (c : InstrCache h V) (key i : ℕ)
      → h.lookup c.pointers key ≡ some i
      → erase h V c key ≡ without c key i
  unfolding erase
  erase_found c key i e = rw (e, erase) refl

  -- An eviction empties the place and no other.
  pub erase_place :
      (capacity : ℕ) (c : InstrCache h V) (i : ℕ)
      → IsCoherent capacity c
      → i < capacity
      → let e = erase h V c (get_or c.keys i 0) in
        IsCoherent capacity e
        × (get_or e.keys i 0 ≡ 0)
        × ((j : ℕ) → j ≢ i → get_or e.keys j 0 ≡ get_or c.keys j 0)
        × ((j : ℕ) → j ≢ i → e.storage.storage j ≡ c.storage.storage j)
  unfolding Lru.set_to_erase
  erase_place capacity c i ok inside = elim (Bool-cases (get_or c.keys i 0 == 0)) [
    | inl empty ↦
        let e : get_or c.keys i 0 ≡ 0 = ground arith in
        let same : erase h V c (get_or c.keys i 0) ≡ c =
          erase_missing c _ (rw e (h.lookup-empty_key c.pointers)) in
        rw same (ok, e, (λ j _. refl), (λ j _. refl))
    | inr held ↦
        let key : IsKey (get_or c.keys i 0) = ((ground arith), ok.no_deleted i) in
        let found : h.lookup c.pointers (get_or c.keys i 0) ≡ some i = (ok.at _ i key).1 refl in
        let keys : (j : ℕ)
            → get_or (set c.keys i 0) j 0 ≡ (if i == j then 0 else get_or c.keys j 0) =
          λ j. get_or-set c.keys i j 0 0 (omega (arith, ok.all_keys)) in
        rw (erase_found c _ i found) (
          record {
            all_ways = ok.all_ways;
            order = set_to_erase-IsOrder c.lru ok.order i (omega (arith, ok.all_ways));
            all_keys = length-set c.keys i 0 ∙ ok.all_keys;
            no_deleted = λ j gone. ground (arith, keys j, ok.no_deleted j, gone);
            at = λ k j kk. ground (
              arith,
              keys j,
              h.lookup-remove c.pointers (get_or c.keys i 0) k key kk,
              ok.at k j kk,
              ok.at k i kk,
            );
            stored = λ j hj. elim (Bool-cases (i == j)) [
              | inl same ↦ absurd (hj (ground (arith, keys j)))
              | inr apart ↦
                  let (v, e) = ok.stored j (λ gone. hj (ground (arith, keys j))) in
                  (v, ground arith)
            ];
          },
          ground (arith, keys i),
          (λ j ne. ground (arith, keys j, ne)),
          (λ j ne. ground (arith, ne)),
        )
  ]

  -- An insertion at an empty place of a key that is not there.
  pub place-IsCoherent :
      (capacity : ℕ) (c : InstrCache h V) (i key : ℕ) (v : V)
      → IsCoherent capacity c
      → i < capacity
      → IsKey key
      → h.lookup c.pointers key ≡ none
      → get_or c.keys i 0 ≡ 0
      → IsCoherent capacity (place h V c i key v)
  unfolding place Lru.touch
  place-IsCoherent capacity c i key v ok inside kk missing empty =
      let keys : (j : ℕ)
          → get_or (set c.keys i key) j 0 ≡ (if i == j then key else get_or c.keys j 0) =
        λ j. get_or-set c.keys i j key 0 (omega (arith, ok.all_keys)) in
      record {
        all_ways = ok.all_ways;
        order = touch-IsOrder c.lru ok.order i (omega (arith, ok.all_ways));
        all_keys = length-set c.keys i key ∙ ok.all_keys;
        no_deleted = λ j gone. ground (arith, keys j, ok.no_deleted j, gone, kk.1);
        at = λ k j hk. ground (
          arith,
          keys j,
          h.lookup-emplace c.pointers key i k kk hk missing,
          ok.at k j hk,
          ok.at k i hk,
          hk.0,
          ok.at key j kk,
        );
        stored = λ j hj. elim (Bool-cases (i == j)) [
          | inl same ↦ (v, ground arith)
          | inr apart ↦
              let (u, e) = ok.stored j (λ gone. hj (ground (arith, keys j))) in (u, ground arith)
        ];
      }

  -- A new cache holds no key.
  pub new_cache-IsCoherent : (capacity : ℕ) → IsCoherent capacity (new_cache h V capacity)
  unfolding new_cache Lru.init
  new_cache-IsCoherent capacity =
      let order =
        touch_ways-IsOrder capacity 0 (Lru.init capacity) (init-IsOrder capacity) (omega arith) in
      record {
        all_ways = order.1;
        order = order.0;
        all_keys = length-replicate capacity 0;
        no_deleted = λ i gone. absurd (omega (arith, gone, get_or-replicate {A = ℕ} capacity i 0));
        at =
            λ k i kk. ground (arith, h.lookup-fresh k, get_or-replicate {A = ℕ} capacity i 0, kk.0);
        stored = λ i held. absurd (held (get_or-replicate {A = ℕ} capacity i 0));
      }
