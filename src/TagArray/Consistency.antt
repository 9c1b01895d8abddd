-- ===== src/TagArray/Consistency.antt =====
-- The hash map of a set of the cache says where each tag is, and a write keeps it so.
use mipt_mips.Prelude.{
  ℕ, ◌<◌, ◌≡◌, ◌↔◌, refl, sym, ap, ◌∙◌, Bool, true, false, ◌&&◌, Option, none, some, List, ◌==◌,
  if◌then◌else◌, length, get_or, set, get_or-set, get_or-replicate, length-set, length-replicate,
  get_or_past, ltb, arith, Bool-cases, inl, inr,
}
use mipt_mips.TagArray.{
  IsKey, HashMap, Policy, Tag, no_tag, CacheSet, new_set, read_no_touch, write,
}

-- Way `w` holds the valid tag `t`.
abbrev pub holds : List Tag → ℕ → ℕ → Bool
holds tags t w = (get_or tags w no_tag).is_valid && (get_or tags w no_tag).tag == t

module _ (h : HashMap) {ways : ℕ} (p : Policy ways) where
  pub IsConsistent : CacheSet h p → Type 0
  IsConsistent s =
      p.IsInfo s.info
      × ((length s.tags ≡ ways)
          × (((w : ℕ)
                → (get_or s.tags w no_tag).is_valid ≡ true
                → IsKey (get_or s.tags w no_tag).tag)
              × ((t w : ℕ)
                  → IsKey t
                  → (read_no_touch h p s t ≡ some w) ↔ (holds s.tags t w ≡ true))))

  -- A new set is consistent.
  pub new_set-IsConsistent : IsConsistent (new_set h p)
  unfolding IsConsistent new_set read_no_touch
  new_set-IsConsistent = (
    p.new_info-IsInfo,
    (
      length-replicate ways no_tag,
      (
        λ w e. absurd (ground (arith, get_or-replicate ways w no_tag)),
        λ t w k. ground (arith, get_or-replicate ways w no_tag, h.find-fresh t),
      ),
    ),
  )

  erased_find :
      (s : CacheSet h p) (way t : ℕ)
      → IsConsistent s
      → IsKey t
      → h.find
          (if (get_or s.tags way no_tag).is_valid
            then h.erase s.lookup_helper (get_or s.tags way no_tag).tag
            else s.lookup_helper)
          t
        ≡ (if holds s.tags t way then none else h.find s.lookup_helper t)
  unfolding IsConsistent
  erased_find s way t (info, (l, (keys, at))) k =
      elim (Bool-cases (get_or s.tags way no_tag).is_valid) [
        | inl valid ↦ rw valid (
            ground (
              arith,
              h.find-erase s.lookup_helper (get_or s.tags way no_tag).tag t (keys way valid) k,
            ))
        | inr invalid ↦ rw invalid refl
      ]

  -- A tag other than the new one keeps its way, unless that is the way taken.
  moved :
      (s : CacheSet h p) (t way j : ℕ)
      → IsConsistent s
      → IsKey t
      → ((if holds s.tags t way then none else h.find s.lookup_helper t) ≡ some j)
        ↔ ((if way == j then false else holds s.tags t j) ≡ true)
  unfolding IsConsistent read_no_touch
  moved s t way j ok kt = ground (arith, ok.1.1.1 t j kt, ok.1.1.1 t way kt)

  -- The new tag is at the way taken alone.
  placed :
      (s : CacheSet h p) (new_tag t way j : ℕ)
      → IsConsistent s
      → IsKey t
      → read_no_touch h p s new_tag ≡ none
      → (new_tag == t) ≡ true
      → (some way ≡ some j) ↔ ((if way == j then true else holds s.tags t j) ≡ true)
  unfolding IsConsistent read_no_touch
  placed s new_tag t way j ok kt miss same =
      let e : new_tag ≡ t = ground arith in
      let miss' : h.find s.lookup_helper t ≡ none = ap (h.find s.lookup_helper) (sym e) ∙ miss in
      ground (arith, ok.1.1.1 t j kt)

  -- After a miss on a tag, other than the two reserved keys, the write of it gives a way of the
  -- set where the tag is found from then on, and leaves the set consistent.
  pub write-IsConsistent :
      (s : CacheSet h p) (new_tag : ℕ)
      → IsConsistent s
      → IsKey new_tag
      → read_no_touch h p s new_tag ≡ none
      → IsConsistent (write h p s new_tag).0
        × (((write h p s new_tag).1 < ways)
            × (read_no_touch h p (write h p s new_tag).0 new_tag ≡ some (write h p s new_tag).1))
  unfolding IsConsistent write read_no_touch
  write-IsConsistent s new_tag ok k miss =
      let way : ℕ = (p.update s.info).1 in
      let inside : way < ways = p.update-lt s.info ok.0 in
      let entry : Tag = record { is_valid = true; tag = new_tag } in
      let tags : List Tag = set s.tags way entry in
      let at_way : (j : ℕ)
          → get_or tags j no_tag ≡ (if way == j then entry else get_or s.tags j no_tag) =
        λ j. get_or-set s.tags way j entry no_tag (omega (arith, ok.1.0)) in
      let at_hold : (t j : ℕ)
          → holds tags t j ≡ (if way == j then new_tag == t else holds s.tags t j) =
        λ t j.
          ap (λ (e : Tag). e.is_valid && e.tag == t) (at_way j)
          ∙ elim (Bool-cases (way == j)) [ inl same ↦ rw same refl | inr apart ↦ rw apart refl ] in
      let erased : h.Map =
        if (get_or s.tags way no_tag).is_valid
        then h.erase s.lookup_helper (get_or s.tags way no_tag).tag
        else s.lookup_helper in
      let gone : h.find erased new_tag ≡ none =
        erased_find s way new_tag ok k ∙ rw miss (ground arith) in
      let found : (t : ℕ)
          → IsKey t
          → h.find (h.emplace erased new_tag way) t ≡ (
              if new_tag == t
              then some way
              else if holds s.tags t way
              then none
              else h.find s.lookup_helper t) =
        λ t kt.
          h.find-emplace erased new_tag way t k kt gone
          ∙ ap (λ (o : Option ℕ). if new_tag == t then some way else o)
              (erased_find s way t ok kt) in
      let here : h.find (h.emplace erased new_tag way) new_tag ≡ some way =
        ground (arith, found new_tag k) in
      (
        (
          p.update-IsInfo s.info ok.0,
          (
            length-set s.tags way entry ∙ ok.1.0,
            (
              (λ j e. elim (Bool-cases (way == j)) [
                | inl same ↦ rw (at_way j, same) k
                | inr apart ↦
                    let old : get_or tags j no_tag ≡ get_or s.tags j no_tag =
                      at_way j ∙ rw apart refl in
                    rw old (ok.1.1.0 j (sym (ap (λ (o : Tag). o.is_valid) old) ∙ e))
              ]),
              λ t j kt. elim (Bool-cases (new_tag == t)) [
                | inl same ↦
                    rw (found t kt, at_hold t j, same) (placed s new_tag t way j ok kt miss same)
                | inr apart ↦ rw (found t kt, at_hold t j, apart) (moved s t way j ok kt)
              ],
            ),
          ),
        ),
        (inside, here),
      )

  -- A touch of the way where a tag was found leaves the set consistent.
  pub touch-IsConsistent :
      (s : CacheSet h p) (t way : ℕ)
      → IsConsistent s
      → IsKey t
      → read_no_touch h p s t ≡ some way
      → IsConsistent (record s { info = p.touch s.info way })
  unfolding IsConsistent read_no_touch
  touch-IsConsistent s t way ok key hit =
      let held : holds s.tags t way ≡ true = (ok.1.1.1 t way key).0 hit in
      let inside : way < ways = elim (Bool-cases (ltb way ways)) [
        | inl below ↦ ground arith
        | inr past ↦
            let none_there = get_or_past s.tags way no_tag (ground (arith, ok.1.0)) in
            absurd (ground (arith, held, none_there))
      ] in
      (p.touch-IsInfo s.info way inside ok.0, ok.1)
