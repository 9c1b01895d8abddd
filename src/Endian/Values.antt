-- ===== src/Endian/Values.antt =====
-- What a byte array stands for, without shifts: the little-endian value, and the bytes of a number.
use mipt_mips.Prelude.{ℕ, zero, suc, ◌+◌, ◌*◌, ◌/◌, ◌%◌, ◌^◌, ◌<◌, ◌≡◌, refl, sym, ap}
use mipt_mips.Prelude.{List, [], ◌∷◌, ◌++◌, length, length-append, arith}
use mathlib.Core.List.{reverse, reverse-append}
use native.Mathlib.Nat.{div-div-eq-div-mul, div-one}
use native.Mathlib.Numerals.{towards_suc}

abbrev pub AllBytes : List ℕ → Type 0
AllBytes [] = Unit {0}
AllBytes (b ∷ bs) = (b < 256) × AllBytes bs

unfoldable pub le_value : List ℕ → ℕ
le_value [] = 0
le_value (b ∷ bs) = b + 256 * le_value bs

unfoldable pub bytes_of : ℕ → ℕ → List ℕ
bytes_of zero v = []
bytes_of (suc n) v = v % 256 ∷ bytes_of n (v / 256)

pub pow_byte : (s : ℕ) → 2 ^ (s + 8) ≡ 256 * 2 ^ s
pow_byte s = simp towards_suc (omega arith)

pub pow_bytes : (n : ℕ) → 2 ^ (8 * suc n) ≡ 256 * 2 ^ (8 * n)
pow_bytes n = let e : 8 * suc n ≡ 8 * n + 8 = omega arith in rw e (pow_byte (8 * n))

pub bytes_of-AllBytes : (n v : ℕ) → AllBytes (bytes_of n v)
unfolding bytes_of
bytes_of-AllBytes zero v = tt
bytes_of-AllBytes (suc n) v = (omega arith, bytes_of-AllBytes n (v / 256))

pub length-bytes_of : (n v : ℕ) → length (bytes_of n v) ≡ n
unfolding bytes_of
length-bytes_of zero v = refl
length-bytes_of (suc n) v = ap suc (length-bytes_of n (v / 256))

pub le_value-lt : (bs : List ℕ) → AllBytes bs → le_value bs < 2 ^ (8 * length bs)
unfolding le_value
le_value-lt [] h = omega arith
le_value-lt (b ∷ bs) h = omega (arith, le_value-lt bs h.1, pow_bytes (length bs), h.0)

pub bytes_of-le_value : (bs : List ℕ) → AllBytes bs → bytes_of (length bs) (le_value bs) ≡ bs
unfolding bytes_of le_value
bytes_of-le_value [] h = refl
bytes_of-le_value (b ∷ bs) h =
    let low : (b + 256 * le_value bs) % 256 ≡ b = omega arith in
    let high : (b + 256 * le_value bs) / 256 ≡ le_value bs = omega arith in
    rw (low, high, bytes_of-le_value bs h.1)

pub le_value-bytes_of : (n v : ℕ) → v < 2 ^ (8 * n) → le_value (bytes_of n v) ≡ v
unfolding bytes_of le_value
le_value-bytes_of zero v h = omega arith
le_value-bytes_of (suc n) v h =
    omega (arith, le_value-bytes_of n (v / 256) (omega (arith, pow_bytes n)))

pub div-pow_byte : (v s : ℕ) → v / 2 ^ (s + 8) ≡ v / 2 ^ s / 256
div-pow_byte v s =
    let e : 2 ^ (s + 8) ≡ 2 ^ s * 256 = omega (arith, pow_byte s) in
    rw e (sym (div-div-eq-div-mul v (2 ^ s) 256))

-- The highest byte is the last.
pub bytes_of-last : (n v : ℕ) → bytes_of (suc n) v ≡ bytes_of n v ++ v / 2 ^ (8 * n) % 256 ∷ []
unfolding bytes_of
bytes_of-last zero v = rw div-one
bytes_of-last (suc n) v =
    let e : 8 * suc n ≡ 8 * n + 8 = omega arith in
    let swap : v / 2 ^ (8 * suc n) ≡ v / 256 / 2 ^ (8 * n) =
      rw (pow_bytes n) (sym (div-div-eq-div-mul v 256 (2 ^ (8 * n)))) in
    rw swap (ap (λ t. v % 256 ∷ t) (bytes_of-last n (v / 256)))

pub AllBytes-append : (xs ys : List ℕ) → AllBytes xs → AllBytes ys → AllBytes (xs ++ ys)
AllBytes-append [] ys hx hy = hy
AllBytes-append (x ∷ xs) ys hx hy = (hx.0, AllBytes-append xs ys hx.1 hy)

pub AllBytes-reverse : (xs : List ℕ) → AllBytes xs → AllBytes (reverse xs)
AllBytes-reverse [] h = tt
AllBytes-reverse (x ∷ xs) h =
    rw (reverse-append (x ∷ []) xs)
      (AllBytes-append (reverse xs) (x ∷ []) (AllBytes-reverse xs h.1) (h.0, tt))

pub length-reverse : (xs : List ℕ) → length (reverse xs) ≡ length xs
length-reverse [] = refl
length-reverse (x ∷ xs) =
    rw (reverse-append (x ∷ []) xs, length-append) (omega (arith, length-reverse xs))
