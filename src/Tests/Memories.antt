-- ===== src/Tests/Memories.antt =====
-- The memories at concrete bytes.
use mipt_mips.Prelude.{
  ℕ, ◌+◌, ◌-◌, ◌≡◌, refl, ◌&&◌, some, List, [], ◌∷◌, length, get_or, ◌==◌, ltb, leb, if◌then◌else◌,
  ◌>>=◌, arith,
}
use mipt_mips.Memory.Plain.{PlainMemory, new_plain}
use mipt_mips.Memory.Plain as Plain
use mipt_mips.Memory.Plain.Copies.{memcpy-round_trip}
use mipt_mips.Memory.Hierarchied.{
  Mapping, new_memory, check_and_read_byte, alloc_and_write_byte, memcpy_host_to_guest,
}
use mipt_mips.Memory.Hierarchied.Addresses.{IsMapping}
use mipt_mips.Memory.Hierarchied.Cells.{new_memory-IsMemory}
use mipt_mips.Memory.Hierarchied.Coherence.{
  new_memory-Agrees, Copied, memcpy_host_to_guest-Copied, check_and_read_byte-alloc_and_write_byte,
}

abbrev ten_bits : Mapping
ten_bits = record { addr_bits = 10; page_bits = 4; offset_bits = 3; set_bits = 3 }

ten_bits-IsMapping : IsMapping ten_bits
ten_bits-IsMapping = (refl, omega arith)

abbrev bytes : List ℕ
bytes = 7 ∷ 8 ∷ 9 ∷ []

memcpy_host_to_guest_example :
    Copied ten_bits
      (memcpy_host_to_guest ten_bits 126 bytes (new_memory ten_bits))
      (Plain.memcpy_host_to_guest 126 bytes (new_plain 10))
memcpy_host_to_guest_example =
    memcpy_host_to_guest-Copied ten_bits (new_memory ten_bits) (new_plain 10) 126 bytes
      ten_bits-IsMapping (omega arith) (new_memory-Agrees ten_bits)

alloc_and_write_byte_example :
    check_and_read_byte ten_bits 127 (alloc_and_write_byte ten_bits 127 9 (new_memory ten_bits))
    ≡ (if 127 == 127 then 9 else check_and_read_byte ten_bits 127 (new_memory ten_bits))
alloc_and_write_byte_example =
    check_and_read_byte-alloc_and_write_byte ten_bits (new_memory ten_bits) 127 127 9
      ten_bits-IsMapping (new_memory-IsMemory ten_bits) (omega arith) (omega arith)

abbrev arena : PlainMemory
arena = 1 ∷ 2 ∷ 3 ∷ 4 ∷ 5 ∷ 6 ∷ 7 ∷ 8 ∷ []

memcpy-round_trip_example :
    (Plain.memcpy_host_to_guest 2 bytes arena >>= λ written.
    some (get_or (Plain.memcpy_guest_to_host 1 4 written) 1 0))
    ≡ some (
        if leb 2 (1 + 1) && ltb (1 + 1) (2 + length bytes)
        then get_or bytes (1 + 1 - 2) 0
        else get_or arena (1 + 1) 0)
memcpy-round_trip_example =
    memcpy-round_trip 2 bytes 1 4 1 arena (omega arith) (omega arith) (omega arith)
