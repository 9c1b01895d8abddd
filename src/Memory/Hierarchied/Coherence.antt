-- ===== src/Memory/Hierarchied/Coherence.antt =====
-- The hierarchied memory behaves as the plain one of the same size.
use mipt_mips.Prelude.{
  ℕ, zero, suc, ◌+◌, ◌-◌, ◌%◌, ◌^◌, ◌<◌, ◌≤◌, ◌≡◌, inl, inr, refl, sym, ap, ◌∙◌, true, false, ◌&&◌,
  Option, none, some, List, [], ◌∷◌, ltb, leb, ◌==◌, if◌then◌else◌, length, drop, get_or, arith,
  Bool-cases, min, get_or-replicate, length-replicate,
}
use mipt_mips.Prelude.Digits.{pow_pos}
use native.Mathlib.Nat.{mod-eq_of_lt}
use mipt_mips.Macro.{bitmask}
use mipt_mips.Macro.Laws.{bitmask_lem, pow_lt}
use mipt_mips.Memory.Plain.{PlainMemory, new_plain}
use mipt_mips.Memory.Plain as Plain
use mipt_mips.Memory.Plain.Copies.{get_or-copy_in, length-copy_in, get_or-take, get_or-drop}
use mipt_mips.Memory.Hierarchied.{
  Mapping, Mem, new_memory, get_set, get_page, get_offset, check_and_read_byte,
  alloc_and_write_byte, write_bytes, addr_mask, memcpy_host_to_guest, memcpy_guest_to_host,
}
use mipt_mips.Memory.Hierarchied.Addresses.{IsMapping, address_ext}
use mipt_mips.Memory.Hierarchied.Cells.{
  IsMemory, new_memory-IsMemory, check_and_read_byte_lem, cell-alloc_and_write_byte,
  alloc_and_write_byte-IsMemory,
}

-- With addresses below `2 ^ addr_bits`, a byte written is read at its address, and at any other what
-- was there.
pub check_and_read_byte-alloc_and_write_byte :
    (m : Mapping) (memory : Mem) (a b v : ℕ)
    → IsMapping m
    → IsMemory m memory
    → a < 2 ^ m.addr_bits
    → b < 2 ^ m.addr_bits
    → check_and_read_byte m b (alloc_and_write_byte m a v memory)
      ≡ (if a == b then v else check_and_read_byte m b memory)
check_and_read_byte-alloc_and_write_byte m memory a b v mapped well p q =
    check_and_read_byte_lem m b (alloc_and_write_byte m a v memory)
    ∙ cell-alloc_and_write_byte m memory well mapped a v (get_set m b) (get_page m b)
        (get_offset m b)
    ∙ elim (Bool-cases (a == b)) [
      | inl same ↦ let e : a ≡ b = ground arith in rw (same, e) (ground arith)
      | inr apart ↦
          rw (apart, check_and_read_byte_lem m b memory)
            (ground (arith, address_ext m a b mapped p q))
    ]

write_bytes_lem :
    (m : Mapping) (src : List ℕ) (dst : ℕ) (memory : Mem)
    → IsMapping m
    → m.addr_bits < 64
    → IsMemory m memory
    → dst + length src ≤ 2 ^ m.addr_bits
    → IsMemory m (write_bytes m dst src memory)
      × ((b : ℕ)
          → b < 2 ^ m.addr_bits
          → check_and_read_byte m b (write_bytes m dst src memory) ≡ (
              if leb dst b && ltb b (dst + length src)
              then get_or src (b - dst) 0
              else check_and_read_byte m b memory))
unfolding write_bytes
write_bytes_lem m [] dst memory mapped small well fits = (well, λ b h. ground arith)
write_bytes_lem m (byte ∷ src) dst memory mapped small well fits =
    let e : (dst + 1) % 2 ^ 64 ≡ suc dst =
      let below : dst + 1 < 2 ^ 64 = omega (arith, pow_lt m.addr_bits 64 small) in
      mod-eq_of_lt below ∙ omega arith in
    let here : Mem = alloc_and_write_byte m dst byte memory in
    let (later_well, later) =
      write_bytes_lem m src (suc dst) here mapped small
        (alloc_and_write_byte-IsMemory m memory well mapped dst byte) (omega arith) in
    rw e (
      later_well,
      λ b h.
          let now =
            check_and_read_byte-alloc_and_write_byte m memory dst b byte mapped well (omega arith)
              h in
          later b h ∙ elim (Bool-cases (ltb dst b)) [
            | inl above ↦
                let f : b - dst ≡ suc (b - suc dst) = ground arith in rw f (ground (arith, now))
            | inr below ↦ let f : b - dst ≡ 0 = ground arith in rw f (ground (arith, now))
          ],
    )

-- Both memories hold the same bytes.
pub Agrees : Mapping → Mem → PlainMemory → Type 0
Agrees m memory arena =
    IsMemory m memory
    × ((length arena ≡ 2 ^ m.addr_bits)
        × ((b : ℕ) → b < 2 ^ m.addr_bits → check_and_read_byte m b memory ≡ get_or arena b 0))

-- The hierarchied memory and the plain one agree when both are new.
pub new_memory-Agrees : (m : Mapping) → Agrees m (new_memory m) (new_plain m.addr_bits)
unfolding Agrees new_plain new_memory
new_memory-Agrees m = (
  new_memory-IsMemory m,
  (
    length-replicate (2 ^ m.addr_bits) 0,
    λ b h.
        check_and_read_byte_lem m b (new_memory m)
        ∙ ap (λ (p : List (List ℕ)). get_or (get_or p (get_page m b) []) (get_offset m b) 0)
            (get_or-replicate (2 ^ m.set_bits) (get_set m b) [])
        ∙ sym (get_or-replicate (2 ^ m.addr_bits) b 0),
  ),
)

limit_lem : (m : Mapping) → m.addr_bits < 64 → (addr_mask m + 1) % 2 ^ 64 ≡ 2 ^ m.addr_bits
unfolding addr_mask
limit_lem m small =
    let least : min m.addr_bits 64 ≡ m.addr_bits = omega arith in
    let mask : bitmask 64 m.addr_bits ≡ 2 ^ m.addr_bits - 1 =
      bitmask_lem 64 m.addr_bits (omega arith) (omega arith) in
    let back : 2 ^ m.addr_bits - 1 + 1 ≡ 2 ^ m.addr_bits = omega (arith, pow_pos m.addr_bits) in
    rw (least, mask, back) (mod-eq_of_lt (pow_lt m.addr_bits 64 small))

-- What the two copies into memory leave, when they agree before.
pub Copied : Mapping → Option Mem → Option PlainMemory → Type 0
unfolding Agrees
Copied m none none = true ≡ true
Copied m (some memory) (some arena) = Agrees m memory arena
Copied m _ _ = false ≡ true

-- On memories that agree, with addresses of less than 64 bits, a copy into the hierarchied memory
-- and the same copy into the plain memory either both end in the exception, or both succeed and
-- leave memories that agree.
pub memcpy_host_to_guest-Copied :
    (m : Mapping) (memory : Mem) (arena : PlainMemory) (dst : ℕ) (src : List ℕ)
    → IsMapping m
    → m.addr_bits < 64
    → Agrees m memory arena
    → Copied m (memcpy_host_to_guest m dst src memory) (Plain.memcpy_host_to_guest dst src arena)
unfolding Copied Agrees memcpy_host_to_guest Plain.memcpy_host_to_guest
memcpy_host_to_guest-Copied m memory arena dst src mapped small (well, (size, same)) =
    rw (limit_lem m small, size)
      (elim (Bool-cases (ltb (2 ^ m.addr_bits) (length src))) [
        | inl long ↦ rw long refl
        | inr short ↦ rw short (elim (Bool-cases (ltb (2 ^ m.addr_bits) dst)) [
          | inl far ↦ rw far refl
          | inr near ↦ rw near (elim (Bool-cases (ltb (2 ^ m.addr_bits - length src) dst)) [
            | inl over ↦ rw over refl
            | inr fits ↦
                let inside : dst + length src ≤ 2 ^ m.addr_bits = ground arith in
                let (later, at) = write_bytes_lem m src dst memory mapped small well inside in
                rw fits (
                  later,
                  (
                    length-copy_in src dst arena ∙ size,
                    λ b h.
                        at b h
                        ∙ ground (arith, same b h, get_or-copy_in src dst b arena (omega arith)),
                  ),
                )
          ])
        ])
      ])

get_or-memcpy_guest_to_host :
    (m : Mapping) (memory : Mem) (src size i : ℕ)
    → src + size < 2 ^ 64
    → i < size
    → get_or (memcpy_guest_to_host m src size memory) i 0 ≡ check_and_read_byte m (src + i) memory
unfolding memcpy_guest_to_host
get_or-memcpy_guest_to_host m memory src zero i fits inside = absurd (omega arith)
get_or-memcpy_guest_to_host m memory src (suc size) zero fits inside =
    ap (λ (t : ℕ). check_and_read_byte m t memory) (omega arith)
get_or-memcpy_guest_to_host m memory src (suc size) (suc i) fits inside =
    let e : (src + 1) % 2 ^ 64 ≡ suc src = omega arith in
    rw e (
      get_or-memcpy_guest_to_host m memory (suc src) size i (omega arith) (omega arith)
      ∙ ap (λ (t : ℕ). check_and_read_byte m t memory) (omega arith))

-- A copy out of memories that agree gives the same bytes.
pub memcpy_guest_to_host-Agrees :
    (m : Mapping) (memory : Mem) (arena : PlainMemory) (src size i : ℕ)
    → m.addr_bits < 64
    → Agrees m memory arena
    → src + size ≤ 2 ^ m.addr_bits
    → i < size
    → get_or (memcpy_guest_to_host m src size memory) i 0
      ≡ get_or (Plain.memcpy_guest_to_host src size arena) i 0
unfolding Agrees Plain.memcpy_guest_to_host
memcpy_guest_to_host-Agrees m memory arena src size i small (well, (long, same)) fits inside =
    get_or-memcpy_guest_to_host m memory src size i (omega (arith, pow_lt m.addr_bits 64 small))
      inside
    ∙ same (src + i) (omega arith)
    ∙ sym (
        get_or-take (min size (length arena - src)) i (drop src arena) (omega arith)
        ∙ get_or-drop src i arena)
