-- ===== src/Memory/Hierarchied.antt =====
-- memory/hierarchied_memory.cpp: sets of pages of bytes, both allocated at the first write.
-- Addresses are words of 64 bits, `none` is `FuncMemoryOutOfRange`.
pub mod Addresses
pub mod Cells
pub mod Coherence
use mipt_mips.Prelude.{
  ℕ, zero, suc, ◌+◌, ◌-◌, ◌%◌, ◌^◌, Bool, true, false, ◌&&◌, ◌||◌, not, Option, none, some, List,
  [], ◌∷◌, ltb, leb, ◌==◌, if◌then◌else◌, length, set, replicate, get_or, min, bit_and, bit_or,
}
use mipt_mips.Prelude.Word.{add_word, shl, shr}
use mipt_mips.Macro.{bitmask}

-- The fields of `HierarchiedMemoryArgumentChecker` and the width of an address.
pub record Mapping : Type 0 where
  pub addr_bits : ℕ
  pub page_bits : ℕ
  pub offset_bits : ℕ
  pub set_bits : ℕ

-- The constructor's checks; `none` is `FuncMemoryBadMapping`.
unfoldable pub check_mapping : ℕ → ℕ → ℕ → Option Mapping
check_mapping addr_bits page_bits offset_bits =
    let set_bits = (addr_bits + 2 ^ 32 + 2 ^ 32 - offset_bits - page_bits) % 2 ^ 32 in
    if leb 32 set_bits || leb 32 page_bits || leb 32 offset_bits
    then none
    else some (record {
      addr_bits = addr_bits;
      page_bits = page_bits;
      offset_bits = offset_bits;
      set_bits = set_bits;
    })

abbrev pub Page : Type 0
Page = List ℕ

abbrev pub Pages : Type 0
Pages = List Page

abbrev pub Mem : Type 0
Mem = List Pages

abbrev pub is_empty {ℓ} : {A : Type ℓ} → List A → Bool
is_empty [] = true
is_empty (x ∷ xs) = false

module _ (m : Mapping) where
  unfoldable pub new_memory : Mem
  new_memory = replicate (2 ^ m.set_bits) []

  unfoldable pub addr_mask : ℕ
  addr_mask = bitmask 64 (min m.addr_bits 64)

  unfoldable pub get_set : ℕ → ℕ
  get_set addr =
      shr (bit_and addr (shl 64 (bitmask 64 m.set_bits) (m.page_bits + m.offset_bits)))
        (m.page_bits + m.offset_bits)

  unfoldable pub get_page : ℕ → ℕ
  get_page addr = shr (bit_and addr (shl 64 (bitmask 64 m.page_bits) m.offset_bits)) m.offset_bits

  unfoldable pub get_offset : ℕ → ℕ
  get_offset addr = bit_and addr (bitmask 64 m.offset_bits)

  unfoldable pub get_addr : ℕ → ℕ → ℕ → ℕ
  get_addr set page offset =
      bit_or (bit_or (shl 64 set (m.page_bits + m.offset_bits)) (shl 64 page m.offset_bits)) offset

  unfoldable pub read_byte : ℕ → Mem → ℕ
  unfolding get_set get_page get_offset
  read_byte addr memory =
      get_or (get_or (get_or memory (get_set addr) []) (get_page addr) []) (get_offset addr) 0

  unfoldable pub check : ℕ → Mem → Bool
  unfolding get_set get_page
  check addr memory =
      let pages = get_or memory (get_set addr) [] in
      not (is_empty pages) && not (is_empty (get_or pages (get_page addr) []))

  unfoldable pub check_and_read_byte : ℕ → Mem → ℕ
  unfolding check read_byte
  check_and_read_byte addr memory = if check addr memory then read_byte addr memory else 0

  unfoldable pub alloc : ℕ → Mem → Mem
  unfolding get_set get_page
  alloc addr memory =
      let pages = get_or memory (get_set addr) [] in
      let resized = if is_empty pages then replicate (2 ^ m.page_bits) [] else pages in
      let page = get_or resized (get_page addr) [] in
      let filled = if is_empty page then replicate (2 ^ m.offset_bits) 0 else page in
      set memory (get_set addr) (set resized (get_page addr) filled)

  unfoldable pub write_byte : ℕ → ℕ → Mem → Mem
  unfolding get_set get_page get_offset
  write_byte addr value memory =
      let pages = get_or memory (get_set addr) [] in
      let page = get_or pages (get_page addr) [] in
      set memory (get_set addr) (set pages (get_page addr) (set page (get_offset addr) value))

  unfoldable pub alloc_and_write_byte : ℕ → ℕ → Mem → Mem
  unfolding alloc write_byte
  alloc_and_write_byte addr value memory = write_byte addr value (alloc addr memory)

  -- The loop of `memcpy_host_to_guest`.
  unfoldable pub write_bytes : ℕ → List ℕ → Mem → Mem
  unfolding alloc_and_write_byte
  write_bytes dst [] memory = memory
  write_bytes dst (byte ∷ src) memory =
      write_bytes (add_word 64 dst 1) src (alloc_and_write_byte dst byte memory)

  unfoldable pub memcpy_host_to_guest : ℕ → List ℕ → Mem → Option Mem
  unfolding addr_mask write_bytes
  memcpy_host_to_guest dst src memory =
      let limit = add_word 64 addr_mask 1 in
      if ltb limit (length src)
      then none
      else (if ltb limit dst
          then none
          else if ltb (limit - length src) dst
          then none
          else some (write_bytes dst src memory))

  unfoldable pub memcpy_guest_to_host : ℕ → ℕ → Mem → List ℕ
  unfolding check_and_read_byte
  memcpy_guest_to_host src zero memory = []
  memcpy_guest_to_host src (suc size) memory =
      check_and_read_byte src memory ∷ memcpy_guest_to_host (add_word 64 src 1) size memory

  -- The loop of `strlen`, with the addresses left.
  unfoldable pub strlen_from : ℕ → ℕ → ℕ → Mem → ℕ
  unfolding check_and_read_byte
  strlen_from zero i addr memory = i
  strlen_from (suc fuel) i addr memory =
      let rest = strlen_from fuel (suc i) addr memory in
      if check_and_read_byte (add_word 64 addr i) memory == 0 then i else rest

  unfoldable pub strlen : ℕ → Mem → ℕ
  unfolding addr_mask strlen_from
  strlen addr memory = strlen_from (suc addr_mask) 0 addr memory
