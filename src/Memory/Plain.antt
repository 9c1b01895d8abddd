-- ===== src/Memory/Plain.antt =====
-- memory/plain_memory.cpp. `none` is `FuncMemoryOutOfRange`; a byte is a number below 256.
pub mod Copies
use mipt_mips.Prelude.{
  ℕ, suc, ◌+◌, ◌-◌, ◌^◌, Option, none, some, List, [], ◌∷◌, ltb, ◌==◌, if◌then◌else◌, length, set,
  take, drop, replicate, min,
}

abbrev pub PlainMemory : Type 0
PlainMemory = List ℕ

unfoldable pub new_plain : ℕ → PlainMemory
new_plain addr_bits = replicate (2 ^ addr_bits) 0

-- `std::copy` into the arena.
unfoldable pub copy_in : List ℕ → ℕ → PlainMemory → PlainMemory
copy_in [] dst arena = arena
copy_in (byte ∷ src) dst arena = copy_in src (suc dst) (set arena dst byte)

unfoldable pub memcpy_host_to_guest : ℕ → List ℕ → PlainMemory → Option PlainMemory
unfolding copy_in
memcpy_host_to_guest dst src arena =
    if ltb (length arena) (length src)
    then none
    else (if ltb (length arena) dst
        then none
        else if ltb (length arena - length src) dst
        then none
        else some (copy_in src dst arena))

-- The bytes that are copied out, for a `src` inside of the arena or at its end.
unfoldable pub memcpy_guest_to_host : ℕ → ℕ → PlainMemory → List ℕ
memcpy_guest_to_host src size arena = take (min size (length arena - src)) (drop src arena)

-- `std::find` of a zero byte, and the distance to it.
unfoldable pub find_zero : PlainMemory → ℕ
find_zero [] = 0
find_zero (byte ∷ arena) = let rest = find_zero arena in if byte == 0 then 0 else suc rest

unfoldable pub strlen : ℕ → PlainMemory → ℕ
unfolding find_zero
strlen addr arena = find_zero (drop addr arena)
