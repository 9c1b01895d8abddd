-- ===== src/Memory/Access.antt =====
-- memory/memory.h and memory/memory.cpp: typed accesses over a memory that copies bytes. `none` is
-- an exception, or the failed assertion on the size of an integer.
use mipt_mips.Prelude.{
  ℕ, zero, suc, ◌*◌, ◌||◌, Option, none, some, List, [], ◌∷◌, length, take, min, ◌==◌,
  if◌then◌else◌, bit_and, bit_or, ◌>>=◌,
}
use mipt_mips.Prelude.Word.{narrow, not_word, add_word}
use mipt_mips.Macro.{bitmask}
use mipt_mips.Endian.{Endian, pack_array, unpack_array}
use mipt_mips.Operation.{Datapath, is_load, is_store, load}

-- The virtual functions of `FuncMemory` that the typed accesses call.
pub record FuncMemory : Type 1 where
  pub Memory : Type 0
  pub memcpy_guest_to_host : ℕ → ℕ → Memory → List ℕ
  pub memcpy_host_to_guest : ℕ → List ℕ → Memory → Option Memory
  pub strlen : ℕ → Memory → ℕ

module _ (f : FuncMemory) where
  -- `read` of a type of `n` bytes.
  unfoldable pub read : ℕ → Endian → ℕ → f.Memory → ℕ
  read n endian addr memory = pack_array endian (f.memcpy_guest_to_host addr n memory)

  unfoldable pub read_masked : ℕ → Endian → ℕ → ℕ → f.Memory → ℕ
  unfolding read
  read_masked n endian addr mask memory = bit_and (read n endian addr memory) mask

  unfoldable pub write : ℕ → Endian → ℕ → ℕ → f.Memory → Option f.Memory
  write n endian value addr memory =
      f.memcpy_host_to_guest addr (unpack_array endian n value) memory

  unfoldable pub write_integer : Endian → ℕ → ℕ → ℕ → f.Memory → Option f.Memory
  unfolding write
  write_integer endian value addr size memory =
      if size == 1 || size == 2 || size == 4 || size == 8 || size == 16
      then write size endian (narrow (8 * size) value) addr memory
      else none

  unfoldable pub masked_write : ℕ → Endian → ℕ → ℕ → ℕ → f.Memory → Option f.Memory
  unfolding read write
  masked_write n endian value addr mask memory =
      let combined_value =
        bit_or (bit_and value mask) (bit_and (read n endian addr memory) (not_word (8 * n) mask)) in
      write n endian combined_value addr memory

  -- The loop of `memset`, with the bytes left.
  unfoldable pub memset : ℕ → ℕ → ℕ → f.Memory → Option f.Memory
  memset addr value zero memory = some memory
  memset addr value (suc size) memory = do
    set ← f.memcpy_host_to_guest addr (value ∷ []) memory
    memset (add_word 64 addr 1) value size set

  unfoldable pub memcpy_host_to_guest_noexcept : ℕ → List ℕ → f.Memory → ℕ × f.Memory
  memcpy_host_to_guest_noexcept dst src memory = elim (f.memcpy_host_to_guest dst src memory) [
    | none ↦ (0, memory)
    | some written ↦ (length src, written)
  ]

  unfoldable pub read_string : ℕ → f.Memory → List ℕ
  read_string addr memory = f.memcpy_guest_to_host addr (f.strlen addr memory) memory

  unfoldable pub read_string_limited : ℕ → ℕ → f.Memory → List ℕ
  read_string_limited addr size memory =
      f.memcpy_guest_to_host addr (min size (f.strlen addr memory)) memory

  unfoldable pub write_string_limited : List ℕ → ℕ → ℕ → f.Memory → Option f.Memory
  write_string_limited value addr size memory =
      f.memcpy_host_to_guest addr (take (min size (length value)) value) memory

  -- `load` of an instruction over registers of `n` bytes.
  unfoldable pub load_value : ℕ → Endian → Datapath → f.Memory → Option Datapath
  unfolding read_masked load
  load_value n endian instr memory =
      let mask = bitmask (8 * n) (8 * instr.mem_size) in
      load (8 * n) instr (read_masked n endian instr.mem_addr mask memory)

  unfoldable pub store : ℕ → Endian → Datapath → f.Memory → Option f.Memory
  unfolding write_integer masked_write
  store n endian instr memory =
      let full_mask = bitmask (8 * n) (8 * instr.mem_size) in
      if instr.mem_addr == 0
      then none
      else (if bit_and instr.mask full_mask == full_mask
          then write_integer endian instr.v_src1 instr.mem_addr instr.mem_size memory
          else masked_write n endian instr.v_src1 instr.mem_addr instr.mask memory)

  unfoldable pub load_store : ℕ → Endian → Datapath → f.Memory → Option (Datapath × f.Memory)
  unfolding load_value store is_load is_store
  load_store n endian instr memory =
      if is_load instr.operation
      then (load_value n endian instr memory >>= λ loaded. some (loaded, memory))
      else (if is_store instr.operation
          then (store n endian instr memory >>= λ written. some (instr, written))
          else some (instr, memory))
