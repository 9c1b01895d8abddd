-- ===== src/InstrCache.antt =====
-- infra/instrcache/instr_cache.h and func_sim/instr_memory.h: the cache of decoded instructions, over
-- the LRU policy and the storage of the arena. The hash map of sparsehash is an interface.
pub mod Coherence
pub mod Lookup
pub mod Eviction
pub mod Erasure
pub mod InstrMemory
pub mod Fetch
use mipt_mips.Prelude.{
  ℕ, zero, suc, ◌+◌, ◌-◌, ◌^◌, ◌≡◌, ◌≢◌, Bool, true, false, not, ◌&&◌, Option, none, some, List,
  ◌==◌, if◌then◌else◌, get_or, set, replicate, ◌>>=◌,
}
use mipt_mips.Ports.{Arena, allocate, construct, destroy}
use mipt_mips.Replacement.Lru.{Lru}
use mipt_mips.Replacement.Lru as Lru

-- The keys other than `INVALID_KEY` and `DELETED_KEY` of `InstrMemoryCached`.
abbrev pub IsKey : ℕ → Type 0
IsKey k = (k ≢ 0) × (k ≢ 2 ^ 64 - 1)

-- `google::dense_hash_map<Key, size_t>`: `emplace` and `operator[]` leave a key alone that is there,
-- and a search for the empty key ends at the first empty bucket.
pub record HashTable : Type 1 where
  pub Table : Type 0
  pub fresh : Table
  pub lookup : Table → ℕ → Option ℕ
  pub emplace : Table → ℕ → ℕ → Table
  pub remove : Table → ℕ → Table
  pub lookup-fresh : (k : ℕ) → lookup fresh k ≡ none
  pub lookup-empty_key : (t : Table) → lookup t 0 ≡ none
  pub lookup-emplace :
      (t : Table) (k v j : ℕ)
      → IsKey k
      → IsKey j
      → lookup t k ≡ none
      → lookup (emplace t k v) j ≡ (if k == j then some v else lookup t j)
  pub lookup-remove :
      (t : Table) (k j : ℕ)
      → IsKey k
      → IsKey j
      → lookup (remove t k) j ≡ (if k == j then none else lookup t j)

-- The loop of the constructor, with the ways left and the next one.
unfoldable pub touch_ways : ℕ → ℕ → Lru → Lru
touch_ways zero i lru = lru
touch_ways (suc left) i lru = touch_ways left (suc i) (Lru.touch lru i)

module _ {ℓ} (h : HashTable) (V : Type ℓ) where
  pub record InstrCache : Type ℓ where
    pub keys : List ℕ
    pub pointers : h.Table
    pub storage : Arena V
    pub lru : Lru

  unfoldable pub new_cache : ℕ → InstrCache
  unfolding touch_ways
  new_cache capacity = record {
    keys = replicate capacity 0;
    pointers = h.fresh;
    storage = allocate capacity;
    lru = touch_ways capacity 0 (Lru.init capacity);
  }

  -- The value is `none` where the reference is to no object.
  unfoldable pub find : InstrCache → ℕ → Bool × Option V
  find c key = elim (h.lookup c.pointers key) [
    | none ↦ (false, c.storage.storage c.storage.space)
    | some index ↦ (true, c.storage.storage index)
  ]

  unfoldable pub touch : InstrCache → ℕ → InstrCache
  touch c key = elim (h.lookup c.pointers key) [
    | none ↦ record c { pointers = h.emplace c.pointers key 0; lru = Lru.touch c.lru 0 }
    | some index ↦ record c { lru = Lru.touch c.lru index }
  ]

  unfoldable pub erase : InstrCache → ℕ → InstrCache
  erase c key = elim (h.lookup c.pointers key) [
    | none ↦ c
    | some index ↦ record {
      keys = set c.keys index 0;
      pointers = h.remove c.pointers key;
      storage = destroy c.storage index;
      lru = Lru.set_to_erase c.lru index;
    }
  ]

  -- The end of `allocate`, at the place that was taken.
  unfoldable pub place : InstrCache → ℕ → ℕ → V → InstrCache
  place c index key value = record {
    keys = set c.keys index key;
    pointers = h.emplace c.pointers key index;
    storage = construct c.storage index value;
    lru = Lru.touch c.lru index;
  }

  -- `none` where the list of the LRU policy is empty.
  unfoldable pub allocate_key : InstrCache → ℕ → V → Option InstrCache
  unfolding erase place
  allocate_key c key value = do
    (index, lru) ← Lru.update c.lru
    let taken = erase (record c { lru = lru }) (get_or c.keys index 0)
    some (place taken index key value)

  unfoldable pub update : InstrCache → ℕ → V → Option InstrCache
  unfolding allocate_key touch
  update c key value = elim (h.lookup c.pointers key) [
    | none ↦ allocate_key c key value
    | some index ↦ some (touch c key)
  ]
