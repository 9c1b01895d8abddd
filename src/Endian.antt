-- ===== src/Endian.antt =====
-- infra/endian.h: words of `n` bytes as arrays of bytes, in both byte orders. An array is the list
-- of its bytes, the first at the lowest address.
pub mod Values
pub mod Little
pub mod Big
use mipt_mips.Prelude.{ℕ, zero, suc, ◌+◌, ◌-◌, ◌*◌, List, [], ◌∷◌, length, bit_or}
use mipt_mips.Prelude.{take, ◌++◌, replicate}
use mipt_mips.Prelude.Word.{narrow, sub_word, shl, shr}

-- `std::endian`
pub data Endian : Type 0 where
  little big : Endian

-- The loop of `pack_array_le`, for a type of `w` bits.
pub pack_le_from : ℕ → ℕ → ℕ → List ℕ → ℕ
pack_le_from w shift value [] = value
pack_le_from w shift value (el ∷ array) =
    pack_le_from w (shift + 8) (bit_or value (shl w el shift)) array

pub pack_array_le : List ℕ → ℕ
pack_array_le array = pack_le_from (8 * length array) 0 0 array

-- The loop of `pack_array_be`; `shift` is a `size_t`, which wraps after the last byte.
pub pack_be_from : ℕ → ℕ → ℕ → List ℕ → ℕ
pack_be_from w shift value [] = value
pack_be_from w shift value (el ∷ array) =
    pack_be_from w (sub_word 64 shift 8) (bit_or value (shl w el shift)) array

pub pack_array_be : List ℕ → ℕ
pack_array_be array = pack_be_from (8 * length array) ((length array - 1) * 8) 0 array

-- The loop of `unpack_array_le`, with the bytes left to write.
pub unpack_le_from : ℕ → ℕ → ℕ → List ℕ
unpack_le_from zero shift value = []
unpack_le_from (suc n) shift value = narrow 8 (shr value shift) ∷ unpack_le_from n (shift + 8) value

pub unpack_array_le : ℕ → ℕ → List ℕ
unpack_array_le n value = unpack_le_from n 0 value

pub unpack_be_from : ℕ → ℕ → ℕ → List ℕ
unpack_be_from zero shift value = []
unpack_be_from (suc n) shift value =
    narrow 8 (shr value shift) ∷ unpack_be_from n (sub_word 64 shift 8) value

pub unpack_array_be : ℕ → ℕ → List ℕ
unpack_array_be n value = unpack_be_from n ((n - 1) * 8) value

pub unpack_array : Endian → ℕ → ℕ → List ℕ
unpack_array Endian.little n value = unpack_array_le n value
unpack_array Endian.big n value = unpack_array_be n value

pub pack_array : Endian → List ℕ → ℕ
pack_array Endian.little array = pack_array_le array
pack_array Endian.big array = pack_array_be array

pub swap_endian : ℕ → ℕ → ℕ
swap_endian n value = pack_array_le (unpack_array_be n value)
