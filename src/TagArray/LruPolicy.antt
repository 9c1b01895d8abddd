-- ===== src/TagArray/LruPolicy.antt =====
-- `LRU` as the replacement policy of a tag array.
use mipt_mips.Prelude.{ℕ, ◌<◌, ◌≡◌, refl, none, some, arith}
use mipt_mips.TagArray.{Policy}
use mipt_mips.Replacement.Lru.{Lru}
use mipt_mips.Replacement.Lru as Lru
use mipt_mips.Replacement.Lru.Invariant.{IsOrder, init-IsOrder, touch-IsOrder, update_lem}

-- What `update` returns on a list that is not empty.
unfoldable pub update_list : Lru → Lru × ℕ
update_list s = elim (Lru.update s) [ none ↦ (s, 0) | some (way, t) ↦ (t, way) ]

module _ (ways : ℕ) (some_ways : 0 < ways) where
  -- The list with every way once.
  abbrev pub IsList : Lru → Type 0
  IsList s = (s.ways ≡ ways) × IsOrder s

  pub update_list-IsList :
      (s : Lru) → IsList s → IsList (update_list s).0 × ((update_list s).1 < ways)
  unfolding update_list Lru.touch
  update_list-IsList s (all, order) =
      let (victim, inside, last, result) = update_lem s order (omega (arith, all)) in
      rw (update_list, result) ((all, touch-IsOrder s order victim inside), omega arith)

  pub init-IsList : IsList (Lru.init ways)
  unfolding Lru.init
  init-IsList = (refl, init-IsOrder ways)

  pub touch-IsList : (s : Lru) (way : ℕ) → way < ways → IsList s → IsList (Lru.touch s way)
  unfolding Lru.touch
  touch-IsList s way inside h = (h.0, touch-IsOrder s h.1 way (omega (arith, h.0)))

  abbrev pub lru_policy : Policy ways
  lru_policy = record {
    Info = Lru;
    new_info = Lru.init ways;
    touch = Lru.touch;
    update = update_list;
    IsInfo = IsList;
    new_info-IsInfo = init-IsList;
    touch-IsInfo = touch-IsList;
    update-IsInfo = λ i h. (update_list-IsList i h).0;
    update-lt = λ i h. (update_list-IsList i h).1;
  }
