-- ===== src/Endian/Little.antt =====
-- `pack_array_le` and `unpack_array_le` are inverse, at every width.
use mipt_mips.Prelude.{ℕ, zero, suc, ◌+◌, ◌*◌, ◌/◌, ◌^◌, ◌≤◌, ◌<◌, ◌≡◌, refl, ap, ◌∙◌}
use mipt_mips.Prelude.{List, [], ◌∷◌, length, arith}
use mipt_mips.Prelude.Word.{shl}
use mipt_mips.Prelude.Digits.{pow_pos, bit_or_fields, bit_or_comm}
use native.Mathlib.Nat.{mod-eq_of_lt, pow-le-pow_right, div-one, mul-lt-mul_of_pos_right}
use native.Mathlib.Nat.{mul-le-mul_right, le-pred_of_lt}
use mipt_mips.Endian.{pack_le_from, pack_array_le, unpack_le_from, unpack_array_le}
use mipt_mips.Endian.Values.{
  AllBytes, le_value, bytes_of, pow_byte, div-pow_byte, bytes_of-AllBytes, bytes_of-le_value,
  le_value-bytes_of,
}

-- A byte shifted to its place in a word that has room for it.
pub shl_byte : (w el shift : ℕ) → el < 256 → shift + 8 ≤ w → shl w el shift ≡ el * 2 ^ shift
shl_byte w el shift h room = mod-eq_of_lt (
    omega (
      arith,
      pow_byte shift,
      pow-le-pow_right {n = 2} (omega arith) room,
      mul-lt-mul_of_pos_right h (pow_pos shift),
    ))

pub pack_le_from_lem :
    (w shift value : ℕ) (array : List ℕ)
    → value < 2 ^ shift
    → shift + 8 * length array ≤ w
    → AllBytes array
    → pack_le_from w shift value array ≡ value + le_value array * 2 ^ shift
unfolding pack_le_from le_value
pack_le_from_lem w shift value [] fits room h = omega arith
pack_le_from_lem w shift value (el ∷ array) fits room h =
    rw
      (
        shl_byte w el shift h.0 (omega arith),
        bit_or_comm value (el * 2 ^ shift),
        bit_or_fields shift el value fits,
      )
      (pack_le_from_lem w (shift + 8) (el * 2 ^ shift + value) array
          (omega (arith, pow_byte shift, mul-le-mul_right (2 ^ shift) (le-pred_of_lt h.0)))
          (omega arith) h.1
        ∙ omega (arith, ap (λ (t : ℕ). le_value array * t) (pow_byte shift)))

pub pack_array_le_lem : (array : List ℕ) → AllBytes array → pack_array_le array ≡ le_value array
unfolding pack_array_le
pack_array_le_lem array h =
    pack_le_from_lem (8 * length array) 0 0 array (omega arith) (omega arith) h ∙ omega arith

unpack_le_from_lem :
    (n shift value : ℕ) → unpack_le_from n shift value ≡ bytes_of n (value / 2 ^ shift)
unfolding unpack_le_from bytes_of
unpack_le_from_lem zero shift value = refl
unpack_le_from_lem (suc n) shift value = rw (unpack_le_from_lem n (shift + 8) value, div-pow_byte)

pub unpack_array_le_lem : (n value : ℕ) → unpack_array_le n value ≡ bytes_of n value
unfolding unpack_array_le
unpack_array_le_lem n value = unpack_le_from_lem n 0 value ∙ ap (bytes_of n) (div-one value)

-- Packing the little-endian bytes of a word of `n` bytes gives the word back.
pub pack-unpack_array_le :
    (n value : ℕ) → value < 2 ^ (8 * n) → pack_array_le (unpack_array_le n value) ≡ value
pack-unpack_array_le n value h =
    rw (unpack_array_le_lem, pack_array_le_lem, bytes_of-AllBytes n value)
      (le_value-bytes_of n value h)

-- Unpacking a packed little-endian array of bytes gives the array back.
pub unpack-pack_array_le :
    (array : List ℕ) → AllBytes array → unpack_array_le (length array) (pack_array_le array) ≡ array
unpack-pack_array_le array h =
    rw (pack_array_le_lem array h, unpack_array_le_lem) (bytes_of-le_value array h)
