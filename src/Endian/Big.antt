-- ===== src/Endian/Big.antt =====
-- The big-endian array of a word is the little-endian one read backwards, so `swap_endian` reverses
-- the bytes of a word and is its own inverse.
use mipt_mips.Prelude.{
  ℕ, zero, suc, ◌+◌, ◌-◌, ◌*◌, ◌/◌, ◌%◌, ◌^◌, ◌≤◌, ◌<◌, ◌≡◌, refl, sym, ap, ◌∙◌,
}
use mipt_mips.Prelude.{List, [], ◌∷◌, ◌++◌, length, arith, bit_or}
use mipt_mips.Prelude.Word.{sub_word}
use mipt_mips.Prelude.Digits.{pow_pos, bit_or_fields}
use mathlib.Core.List.{reverse, reverse-append, reverse-reverse}
use native.Mathlib.Nat.{zero-mul, mul-one, le_refl, mul-lt-mul_of_pos_right}
use mipt_mips.Endian.{
  pack_be_from, pack_array_be, unpack_be_from, unpack_array_be, unpack_array_le, swap_endian,
}
use mipt_mips.Endian.Values.{
  AllBytes, le_value, bytes_of, bytes_of-last, bytes_of-AllBytes, bytes_of-le_value, pow_bytes,
  le_value-bytes_of, length-bytes_of, AllBytes-reverse, length-reverse,
}
use mipt_mips.Endian.Little.{pack_array_le_lem, unpack_array_le_lem, shl_byte}

-- The digits read so far, with the rest of the array behind them.
be_value : ℕ → List ℕ → ℕ
be_value q [] = q
be_value q (b ∷ bs) = be_value (q * 256 + b) bs

pack_be_from_lem :
    (w q shift : ℕ) (array : List ℕ)
    → (0 < length array → shift ≡ (length array - 1) * 8)
    → 8 * length array ≤ w
    → w < 2 ^ 63
    → AllBytes array
    → pack_be_from w shift (q * 2 ^ (8 * length array)) array ≡ be_value q array
unfolding pack_be_from be_value
pack_be_from_lem w q shift [] e room small h = rw mul-one
pack_be_from_lem w q shift (el ∷ array) e room small h =
    let k : ℕ = length array in
    let here : shift ≡ 8 * k = omega (arith, e (omega arith)) in
    let grown = pow_bytes k in
    let joined : bit_or (q * 2 ^ (8 * suc k)) (el * 2 ^ (8 * k)) ≡ (q * 256 + el) * 2 ^ (8 * k) =
      bit_or_fields (8 * suc k) q (el * 2 ^ (8 * k))
        (omega (arith, grown, mul-lt-mul_of_pos_right h.0 (pow_pos (8 * k))))
      ∙ omega (arith, ap (λ (t : ℕ). q * t) grown) in
    rw (here, shl_byte w el (8 * k) h.0 (omega arith), joined)
      (pack_be_from_lem w (q * 256 + el) (sub_word 64 (8 * k) 8) array (λ p. omega arith)
        (omega arith) small h.1)

le_value-append :
    (xs ys : List ℕ) → le_value (xs ++ ys) ≡ le_value xs + le_value ys * 2 ^ (8 * length xs)
unfolding le_value
le_value-append [] ys = omega arith
le_value-append (x ∷ xs) ys =
    omega (arith, le_value-append xs ys, ap (λ (t : ℕ). le_value ys * t) (pow_bytes (length xs)))

be_value_lem :
    (q : ℕ) (array : List ℕ)
    → be_value q array ≡ q * 2 ^ (8 * length array) + le_value (reverse array)
unfolding be_value le_value
be_value_lem q [] = rw mul-one (omega arith)
be_value_lem q (b ∷ bs) =
    rw (reverse-append (b ∷ []) bs, le_value-append, length-reverse)
      (unfold le_value in
        omega (arith, be_value_lem (q * 256 + b) bs, ap (λ (t : ℕ). q * t) (pow_bytes (length bs))))

-- Packing from the big end is packing the reversed array from the little end.
pub pack_array_be_lem :
    (array : List ℕ)
    → 8 * length array < 2 ^ 63
    → AllBytes array
    → pack_array_be array ≡ le_value (reverse array)
unfolding pack_array_be
pack_array_be_lem array small h =
    (rw zero-mul at (
      pack_be_from_lem (8 * length array) 0 ((length array - 1) * 8) array (λ p. refl) (le_refl _)
        small h))
    ∙ be_value_lem 0 array
    ∙ omega arith

unpack_be_from_lem :
    (n shift value : ℕ)
    → n < 2 ^ 60
    → (0 < n → shift ≡ (n - 1) * 8)
    → unpack_be_from n shift value ≡ reverse (bytes_of n value)
unfolding unpack_be_from
unpack_be_from_lem zero shift value h e = unfold bytes_of in refl
unpack_be_from_lem (suc n) shift value h e =
    let here : shift ≡ 8 * n = omega (arith, e (omega arith)) in
    rw (here, bytes_of-last n value, reverse-append)
      (ap (λ t. value / 2 ^ (8 * n) % 256 ∷ t)
        (unpack_be_from_lem n (sub_word 64 (8 * n) 8) value (omega arith) (λ p. omega arith)))

pub unpack_array_be_lem :
    (n value : ℕ) → n < 2 ^ 60 → unpack_array_be n value ≡ reverse (bytes_of n value)
unfolding unpack_array_be
unpack_array_be_lem n value h = unpack_be_from_lem n ((n - 1) * 8) value h (λ p. refl)

-- The bytes of a word in reverse, and the word that they make.
module _ (n value : ℕ) (h : n < 2 ^ 60) where
  backwards : List ℕ
  backwards = reverse (bytes_of n value)

  backwards-AllBytes : AllBytes backwards
  unfolding backwards
  backwards-AllBytes = AllBytes-reverse (bytes_of n value) (bytes_of-AllBytes n value)

  length-backwards : length backwards ≡ n
  unfolding backwards
  length-backwards = length-reverse (bytes_of n value) ∙ length-bytes_of n value

  swap_endian_lem : swap_endian n value ≡ le_value backwards
  unfolding swap_endian backwards
  swap_endian_lem = rw (unpack_array_be_lem n value h) (pack_array_le_lem _ backwards-AllBytes)

  bytes_of-swap_endian : bytes_of n (swap_endian n value) ≡ backwards
  bytes_of-swap_endian = rw swap_endian_lem (
      ap (λ t. bytes_of t (le_value backwards)) (sym length-backwards)
      ∙ bytes_of-le_value backwards backwards-AllBytes)

-- The big-endian bytes are the little-endian ones in reverse, and packing them gives the word back.
pub pack-unpack_array_be :
    (n value : ℕ)
    → n < 2 ^ 60
    → value < 2 ^ (8 * n)
    → (unpack_array_be n value ≡ reverse (unpack_array_le n value))
      × (pack_array_be (unpack_array_be n value) ≡ value)
unfolding backwards
pack-unpack_array_be n value h fits = (
  rw (unpack_array_le_lem n value) (unpack_array_be_lem n value h),
  rw
      (
        unpack_array_be_lem n value h,
        pack_array_be_lem (backwards n value h) (omega (arith, length-backwards n value h))
            (backwards-AllBytes n value h),
        reverse-reverse,
      )
      (le_value-bytes_of n value fits),
)

-- `swap_endian` undoes itself.
pub swap_endian-swap_endian :
    (n value : ℕ) → n < 2 ^ 60 → value < 2 ^ (8 * n) → swap_endian n (swap_endian n value) ≡ value
unfolding backwards
swap_endian-swap_endian n value h fits =
    rw (swap_endian_lem n (swap_endian n value) h, bytes_of-swap_endian n value h, reverse-reverse)
      (le_value-bytes_of n value fits)
