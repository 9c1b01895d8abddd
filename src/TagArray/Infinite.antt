-- ===== src/TagArray/Infinite.antt =====
-- `InfiniteCacheTagArray`: every address keeps the way of its first write.
use mipt_mips.Prelude.{
  ℕ, ◌≡◌, refl, ap, ◌∙◌, Option, none, some, List, [], ◌∷◌, ◌++◌, ◌==◌, if◌then◌else◌, length,
  arith, Option-cases, Bool-cases, inl, inr,
}
use mipt_mips.Prelude.Word.{narrow}
use mipt_mips.TagArray.{IsKey, HashMap}

module _ (h : HashMap) where
  pub record InfiniteTags : Type 0 where
    pub tags : List ℕ
    pub lookup_helper : h.Map

  unfoldable pub lookup : InfiniteTags → ℕ → Option ℕ
  lookup s addr = h.find s.lookup_helper addr

  -- The number of ways is cast to `int32`.
  unfoldable pub record_address : InfiniteTags → ℕ → InfiniteTags × ℕ
  unfolding lookup
  record_address s addr = elim (lookup s addr) [
    | some way ↦ (s, way)
    | none ↦
        let way = narrow 32 (length s.tags) in
        (
          record { tags = s.tags ++ addr ∷ []; lookup_helper = h.emplace s.lookup_helper addr way },
          way,
        )
  ]

  -- After a write the address is found at the way that the write gave, and every other address is
  -- found where it was, the two reserved keys aside.
  pub lookup-record_address :
      (s : InfiniteTags) (addr other : ℕ)
      → IsKey addr
      → IsKey other
      → lookup (record_address s addr).0 other
        ≡ (if addr == other then some (record_address s addr).1 else lookup s other)
  unfolding lookup record_address
  lookup-record_address s addr other k j = elim (Option-cases (h.find s.lookup_helper addr)) [
    | inl miss ↦
        rw (lookup, record_address, miss)
          (h.find-emplace s.lookup_helper addr (narrow 32 (length s.tags)) other k j miss)
    | inr (way, hit) ↦
        rw (lookup, record_address, hit)
          (elim (Bool-cases (addr == other)) [
            | inl same ↦
                let e : other ≡ addr = ground arith in rw same (ap (h.find s.lookup_helper) e ∙ hit)
            | inr apart ↦ rw apart refl
          ])
  ]
