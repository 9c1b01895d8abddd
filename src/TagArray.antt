-- ===== src/TagArray.antt =====
-- infra/cache/cache_tag_array.cpp: the tag arrays of the caches. The hash map of sparsehash and the
-- replacement policy are interfaces.
pub mod Consistency
pub mod Geometry
pub mod Infinite
pub mod LruPolicy
use mipt_mips.Prelude.{
  ℕ, zero, suc, ◌+◌, ◌-◌, ◌*◌, ◌/◌, ◌%◌, ◌^◌, ◌<◌, ◌≡◌, ◌≢◌, Bool, true, false, not, ◌||◌, Option,
  none, some, List, [], ◌∷◌, ◌++◌, ltb, ◌==◌, if◌then◌else◌, length, get_or, set, replicate,
  bit_and,
}
use mipt_mips.Prelude.Word.{shr}
use mipt_mips.Macro.{bitmask}
use mipt_mips.Replacement.PseudoLru.{is_power_of_two}

-- The two keys that are given to `set_empty_key` and `set_deleted_key`.
abbrev pub IsKey : ℕ → Type 0
IsKey k = (k ≢ 2 ^ 31 - 1) × (k ≢ 2 ^ 31 - 2)

-- `google::dense_hash_map<Addr, int32>`: `emplace` leaves a key alone that is there.
pub record HashMap : Type 1 where
  pub Map : Type 0
  pub fresh : Map
  pub find : Map → ℕ → Option ℕ
  pub emplace : Map → ℕ → ℕ → Map
  pub erase : Map → ℕ → Map
  pub find-fresh : (k : ℕ) → find fresh k ≡ none
  pub find-emplace :
      (m : Map) (k v j : ℕ)
      → IsKey k
      → IsKey j
      → find m k ≡ none
      → find (emplace m k v) j ≡ (if k == j then some v else find m j)
  pub find-erase :
      (m : Map) (k j : ℕ)
      → IsKey k
      → IsKey j
      → find (erase m k) j ≡ (if k == j then none else find m j)

-- `CacheReplacement` for a number of ways.
pub record Policy (ways : ℕ) : Type 1 where
  pub Info : Type 0
  pub new_info : Info
  pub touch : Info → ℕ → Info
  pub update : Info → Info × ℕ
  pub IsInfo : Info → Type 0
  pub new_info-IsInfo : IsInfo new_info
  pub touch-IsInfo : (i : Info) (way : ℕ) → way < ways → IsInfo i → IsInfo (touch i way)
  pub update-IsInfo : (i : Info) → IsInfo i → IsInfo (update i).0
  pub update-lt : (i : Info) → IsInfo i → (update i).1 < ways

pub record Tag : Type 0 where
  pub is_valid : Bool
  pub tag : ℕ

abbrev pub no_tag : Tag
no_tag = record { is_valid = false; tag = 0 }

module _ (h : HashMap) {ways : ℕ} (p : Policy ways) where
  -- What the vectors `tags`, `lookup_helper` and `replacement_info` hold for one set.
  pub record CacheSet : Type 0 where
    pub tags : List Tag
    pub lookup_helper : h.Map
    pub info : p.Info

  unfoldable pub new_set : CacheSet
  new_set = record { tags = replicate ways no_tag; lookup_helper = h.fresh; info = p.new_info }

  -- `none` is the pair of `false` and -1.
  unfoldable pub read_no_touch : CacheSet → ℕ → Option ℕ
  read_no_touch s num_tag = h.find s.lookup_helper num_tag

  unfoldable pub read : CacheSet → ℕ → CacheSet × Option ℕ
  unfolding read_no_touch
  read s num_tag = elim (read_no_touch s num_tag) [
    | none ↦ (s, none)
    | some way ↦ (record s { info = p.touch s.info way }, some way)
  ]

  unfoldable pub write : CacheSet → ℕ → CacheSet × ℕ
  write s new_tag =
      let (info, way) = p.update s.info in
      let entry = get_or s.tags way no_tag in
      let erased = if entry.is_valid then h.erase s.lookup_helper entry.tag else s.lookup_helper in
      (
        record {
          tags = set s.tags way (record { is_valid = true; tag = new_tag });
          lookup_helper = h.emplace erased new_tag way;
          info = info;
        },
        way,
      )
