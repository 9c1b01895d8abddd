-- ===== src/InstrCache/InstrMemory.antt =====
-- func_sim/instr_memory.h: the fetch of an instruction, with and without the cache.
use mipt_mips.Prelude.{
  ℕ, ◌≡◌, Bool, true, false, Option, none, some, List, [], ◌∷◌, ◌==◌, if◌then◌else◌, ◌>>=◌,
}
use mipt_mips.Endian.{Endian}
use mipt_mips.Memory.Access.{FuncMemory, read}
use mipt_mips.InstrCache.{HashTable, InstrCache, find, touch, erase, update}

-- What the memories ask of an `ISA` and its instructions.
pub record Isa : Type 1 where
  pub Instr : Type 0
  pub create_instr : ℕ → Endian → ℕ → Instr
  pub is_same_bytes : Instr → ℕ → Bool
  pub is_same_bytes_lem :
      (bytes other : ℕ) (endian : Endian) (pc : ℕ)
      → is_same_bytes (create_instr bytes endian pc) other ≡ true
      → bytes ≡ other

module _ (f : FuncMemory) (isa : Isa) where
  unfoldable pub fetch : Endian → ℕ → f.Memory → ℕ
  fetch endian pc memory = read f 4 endian pc memory

  -- `InstrMemory`.
  unfoldable pub fetch_instr : Endian → ℕ → f.Memory → isa.Instr
  unfolding fetch
  fetch_instr endian pc memory = isa.create_instr (fetch endian pc memory) endian pc

  module _ (h : HashTable) where
    abbrev pub Cache : Type 0
    Cache = InstrCache h isa.Instr

    -- The end of `fetch_instr`, where the cache has no instruction of use.
    unfoldable pub fetch_new : Endian → Cache → ℕ → f.Memory → Option (Cache × isa.Instr)
    unfolding fetch_instr
    fetch_new endian c pc memory =
        let instr = fetch_instr endian pc memory in
        if pc == 0
        then some (c, instr)
        else (update h isa.Instr c pc instr >>= λ updated. some (updated, instr))

    unfoldable pub fetch_found :
        Endian → Cache → ℕ → f.Memory → Bool × Option isa.Instr → Option (Cache × isa.Instr)
    unfolding fetch fetch_new
    fetch_found endian c pc memory (false, value) = fetch_new endian c pc memory
    fetch_found endian c pc memory (true, none) = none
    fetch_found endian c pc memory (true, some value) =
        if isa.is_same_bytes value (fetch endian pc memory)
        then some (touch h isa.Instr c pc, value)
        else fetch_new endian (erase h isa.Instr c pc) pc memory

    -- `InstrMemoryCached`; `none` is a reference to no object.
    unfoldable pub fetch_cached : Endian → Cache → ℕ → f.Memory → Option (Cache × isa.Instr)
    unfolding fetch_found
    fetch_cached endian c pc memory = fetch_found endian c pc memory (find h isa.Instr c pc)

    -- Fetches one after another, each with the memory of its time.
    unfoldable pub fetch_all :
        Endian → Cache → List (ℕ × f.Memory) → Option (Cache × List isa.Instr)
    fetch_all endian c [] = some (c, [])
    fetch_all endian c ((pc, memory) ∷ rest) = do
      (c', instr) ← fetch_cached endian c pc memory
      (c'', instrs) ← fetch_all endian c' rest
      some (c'', instr ∷ instrs)
