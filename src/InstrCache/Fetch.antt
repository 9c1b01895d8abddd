-- ===== src/InstrCache/Fetch.antt =====
-- func_sim/instr_memory.h: a fetch through the cache gives the instruction that a fetch without it
-- decodes, also after the program has changed its own code.
use mipt_mips.Prelude.{
  ℕ, ◌-◌, ◌^◌, ◌<◌, ◌≡◌, ◌≢◌, refl, sym, ap, ◌∙◌, Bool, true, false, Option, some, List, [], ◌∷◌,
  map, ◌==◌, arith, Bool-cases, inl, inr, All,
}
use mipt_mips.Endian.{Endian}
use mipt_mips.Memory.Access.{FuncMemory}
use mipt_mips.InstrCache.{IsKey, HashTable, InstrCache, new_cache, find, touch, erase}
use mipt_mips.InstrCache.Coherence.{IsCoherent, new_cache-IsCoherent}
use mipt_mips.InstrCache.Lookup.{find-some, touch-find}
use mipt_mips.InstrCache.Eviction.{update-find}
use mipt_mips.InstrCache.Erasure.{erase-find}
use mipt_mips.InstrCache.InstrMemory.{
  Isa, fetch, fetch_instr, fetch_new, fetch_found, fetch_cached, fetch_all,
}

module _ (f : FuncMemory) (isa : Isa) (h : HashTable) where
  -- The cache is coherent, and what it holds was decoded at its key.
  pub record IsDecoded (endian : Endian) (capacity : ℕ) (c : InstrCache h isa.Instr) : Type 0 where
    pub coherent : IsCoherent h capacity c
    pub decoded :
        (k : ℕ) (u : isa.Instr)
        → IsKey k
        → find h isa.Instr c k ≡ (true, some u)
        → (bytes : ℕ) × (u ≡ isa.create_instr bytes endian k)

  fetch_new_lem :
      (endian : Endian) (capacity : ℕ) (c : InstrCache h isa.Instr) (pc : ℕ) (memory : f.Memory)
      → 0 < capacity
      → IsDecoded endian capacity c
      → pc ≢ 2 ^ 64 - 1
      → (find h isa.Instr c pc).0 ≡ false
      → (c' : InstrCache h isa.Instr) × (fetch_new f isa h endian c pc memory
          ≡ some (c', fetch_instr f isa endian pc memory))
        × IsDecoded endian capacity c'
  unfolding fetch_new fetch_instr
  fetch_new_lem endian capacity c pc memory pos ok low absent = elim (Bool-cases (pc == 0)) [
    | inl start ↦ (c, ground arith, ok)
    | inr later ↦
        let key : IsKey pc = ((λ z. ground arith), low) in
        let instr : isa.Instr = fetch_instr f isa endian pc memory in
        let (victim, c', last, updated, coherent, here, rest) =
          update-find h capacity c pc instr ok.coherent pos key absent in
        (
          c',
          ground (arith, updated),
          record {
            coherent = coherent;
            decoded = λ k u hk found. elim (Bool-cases (k == pc)) [
              | inl same ↦
                  let e : k ≡ pc = ground arith in
                  let at_pc : find h isa.Instr c' pc ≡ (true, some u) =
                    ap (find h isa.Instr c') (sym e) ∙ found in
                  let u_instr : u ≡ instr = ground (arith, at_pc, here) in
                  (
                    fetch f isa endian pc memory,
                    u_instr ∙ ap (isa.create_instr (fetch f isa endian pc memory) endian) (sym e),
                  )
              | inr apart ↦ ok.decoded k u hk ((rest k u hk (λ e. ground arith)).0 found).0
            ];
          },
        )
  ]

  kept-IsDecoded :
      (endian : Endian) (capacity : ℕ) (c c' : InstrCache h isa.Instr)
      → IsDecoded endian capacity c
      → IsCoherent h capacity c'
      → ((k : ℕ) (u : isa.Instr)
          → IsKey k
          → find h isa.Instr c' k ≡ (true, some u)
          → find h isa.Instr c k ≡ (true, some u))
      → IsDecoded endian capacity c'
  kept-IsDecoded endian capacity c c' ok coherent old = record {
    coherent = coherent;
    decoded = λ k u hk found. ok.decoded k u hk (old k u hk found);
  }

  found_lem :
      (endian : Endian) (capacity : ℕ) (c : InstrCache h isa.Instr) (pc : ℕ) (memory : f.Memory)
      (value : isa.Instr)
      → 0 < capacity
      → IsDecoded endian capacity c
      → IsKey pc
      → pc ≢ 2 ^ 64 - 1
      → find h isa.Instr c pc ≡ (true, some value)
      → (c' : InstrCache h isa.Instr) × (fetch_found f isa h endian c pc memory (true, some value)
          ≡ some (c', fetch_instr f isa endian pc memory))
        × IsDecoded endian capacity c'
  unfolding fetch_found fetch_instr
  found_lem endian capacity c pc memory value pos ok key low found =
      let present : (find h isa.Instr c pc).0 ≡ true = ap (λ r. r.0) found in
      elim (Bool-cases (isa.is_same_bytes value (fetch f isa endian pc memory))) [
        | inl same ↦
            let (bytes, decoded) = ok.decoded pc value key found in
            let fresh : bytes ≡ fetch f isa endian pc memory =
              isa.is_same_bytes_lem bytes (fetch f isa endian pc memory) endian pc
                (rw (sym decoded) same) in
            let (updated, coherent, old) =
              touch-find h capacity c pc value ok.coherent key present in
            (
              touch h isa.Instr c pc,
              rw same (
                  ap (λ i. some (touch h isa.Instr c pc, i))
                    (decoded ∙ ap (λ b. isa.create_instr b endian pc) fresh)),
              kept-IsDecoded endian capacity c _ ok coherent (λ k u hk now. sym (old k) ∙ now),
            )
        | inr other ↦
            let (coherent, gone, old) = erase-find h capacity c pc ok.coherent key present in
            rw other (
              fetch_new_lem endian capacity (erase h isa.Instr c pc) pc memory pos
                (kept-IsDecoded endian capacity c _ ok coherent
                  (λ k u hk now. ((old k u hk).0 now).0))
                low gone)
      ]

  absent_lem :
      (endian : Endian) (c : InstrCache h isa.Instr) (pc : ℕ) (memory : f.Memory)
      (r : Bool × Option isa.Instr)
      → r.0 ≡ false
      → fetch_found f isa h endian c pc memory r ≡ fetch_new f isa h endian c pc memory
  unfolding fetch_found
  absent_lem endian c pc memory (false, value) absent = refl
  absent_lem endian c pc memory (true, value) absent = absurd (ground (arith, absent))

  -- With a place at least, a fetch through a cache of decoded instructions does not fail, gives the
  -- instruction that is decoded of the memory as it is, and leaves such a cache.
  pub fetch_cached_lem :
      (endian : Endian) (capacity : ℕ) (c : InstrCache h isa.Instr) (pc : ℕ) (memory : f.Memory)
      → 0 < capacity
      → IsDecoded endian capacity c
      → pc ≢ 2 ^ 64 - 1
      → (c' : InstrCache h isa.Instr) × (fetch_cached f isa h endian c pc memory
          ≡ some (c', fetch_instr f isa endian pc memory))
        × IsDecoded endian capacity c'
  unfolding fetch_cached
  fetch_cached_lem endian capacity c pc memory pos ok low =
      elim (Bool-cases (find h isa.Instr c pc).0) [
        | inl present ↦
            let (key, (value, found)) = find-some h capacity c pc ok.coherent low present in
            rw found (found_lem endian capacity c pc memory value pos ok key low found)
        | inr absent ↦
            rw (absent_lem endian c pc memory (find h isa.Instr c pc) absent)
              (fetch_new_lem endian capacity c pc memory pos ok low absent)
      ]

  fetch_all_lem :
      (endian : Endian) (capacity : ℕ) (c : InstrCache h isa.Instr) (requests : List (ℕ × f.Memory))
      → 0 < capacity
      → IsDecoded endian capacity c
      → All (λ r. r.0 ≢ 2 ^ 64 - 1) requests
      → (c' : InstrCache h isa.Instr) × (fetch_all f isa h endian c requests
          ≡ some (c', map (λ r. fetch_instr f isa endian r.0 r.1) requests))
        × IsDecoded endian capacity c'
  unfolding fetch_all
  fetch_all_lem endian capacity c [] pos ok low = (c, refl, ok)
  fetch_all_lem endian capacity c ((pc, memory) ∷ rest) pos ok low =
      let (c', first, ok') = fetch_cached_lem endian capacity c pc memory pos ok low.0 in
      let (c'', others, ok'') = fetch_all_lem endian capacity c' rest pos ok' low.1 in
      (c'', rw (first, others) refl, ok'')

  pub new_cache-IsDecoded :
      (endian : Endian) (capacity : ℕ) → IsDecoded endian capacity (new_cache h isa.Instr capacity)
  unfolding new_cache find
  new_cache-IsDecoded endian capacity = record {
    coherent = new_cache-IsCoherent h capacity;
    decoded = λ k u hk found. absurd (ground (arith, found, h.lookup-fresh k));
  }

  -- From a new cache with a place at least, any sequence of fetches at addresses other than the
  -- last one, each from the memory of its time, succeeds and gives what the same fetches give
  -- without a cache.
  pub fetch_all-new_cache :
      (endian : Endian) (capacity : ℕ) (requests : List (ℕ × f.Memory))
      → 0 < capacity
      → All (λ r. r.0 ≢ 2 ^ 64 - 1) requests
      → (c' : InstrCache h isa.Instr) × (fetch_all f isa h endian
            (new_cache h isa.Instr capacity)
            requests
          ≡ some (c', map (λ r. fetch_instr f isa endian r.0 r.1) requests))
  fetch_all-new_cache endian capacity requests pos low =
      let (c', all, ok) =
        fetch_all_lem endian capacity (new_cache h isa.Instr capacity) requests pos
          (new_cache-IsDecoded endian capacity) low in
      (c', all)
