-- ===== src/Multiplication/Signs.antt =====
-- Words as signed numbers: the magnitude of a word, its opposite, and products of opposites.
use mipt_mips.Prelude.{
  ℕ, zero, suc, ◌+◌, ◌-◌, ◌*◌, ◌%◌, ◌^◌, ◌<◌, ◌≤◌, ◌≡◌, ◌≢◌, refl, ap, ◌∙◌, ◌==◌, arith, Bool-cases,
  ◌⊎◌, inl, inr,
}
use native.Mathlib.Nat.{
  mul-add, add-mul, add-mul-mod_self_right, mod-eq_of_lt, mod_self, pow-suc, mul_right_comm,
  div-lt_iff_lt-mul, zero-div,
}
use mipt_mips.Prelude.Word.{sub_word, shr}
use mipt_mips.Prelude.Digits.{pow_pos}
use mipt_mips.Macro.Laws.{sub_word-eq_of_le}
use mipt_mips.Multiplication.{magnitude}

-- Equal up to multiples of `m`.
pub mod_cancel : (a b k l m : ℕ) → a + k * m ≡ b + l * m → a % m ≡ b % m
mod_cancel a b k l m e =
    omega (arith, add-mul-mod_self_right a k m, add-mul-mod_self_right b l m, ap (λ z. z % m) e)

-- The opposite of a word.
pub opposite_zero : (w : ℕ) → sub_word w 0 0 ≡ 0
opposite_zero w =
    let whole : 0 + 2 ^ w - 0 ≡ 2 ^ w = omega arith in rw (whole, mod_self (2 ^ w)) refl

pub opposite_pos : (w q : ℕ) → 0 < q → q < 2 ^ w → sub_word w 0 q ≡ 2 ^ w - q
opposite_pos w q pos h =
    let below : 2 ^ w - q < 2 ^ w = omega (arith, h, pos) in
    let whole : 0 + 2 ^ w - q ≡ 2 ^ w - q = omega arith in rw (whole, mod-eq_of_lt below) refl

pub negated : (w q : ℕ) → q < 2 ^ w → (c : ℕ) × (sub_word w 0 q + q ≡ c * 2 ^ w)
negated w zero h = (0, rw (opposite_zero w) (omega arith))
negated w (suc q) h = (1, rw (opposite_pos w (suc q) (omega arith) h) (omega (arith, h)))

-- A dividend that is negative.
from_opposite : (m a x n k : ℕ) → n + a ≡ k * m → x + a ≡ m → x < m → n % m ≡ x
from_opposite m a x n k e f small = mod_cancel n x 1 k m (omega (arith, e, f)) ∙ mod-eq_of_lt small

module _ (m q r b u v c d : ℕ) (quotient : u + q ≡ c * m) (remainder : v + r ≡ d * m) where
  pub plus_minus : (y : ℕ) → y + b ≡ m → q * b + r < m → (u * y + r) % m ≡ q * b + r
  plus_minus y e small =
      mod_cancel (u * y + r) (q * b + r) (c * b) u m (
        omega (
          arith,
          mul-add u y b,
          add-mul u q b,
          ap (λ z. z * b) quotient,
          ap (λ z. u * z) e,
          mul_right_comm c m b,
        ))
      ∙ mod-eq_of_lt small

  pub minus_plus : (x : ℕ) → x + (q * b + r) ≡ m → x < m → (u * b + v) % m ≡ x
  minus_plus x e small =
      from_opposite m (q * b + r) x (u * b + v) (c * b + d)
        (omega (
          arith,
          add-mul u q b,
          add-mul (c * b) d m,
          ap (λ z. z * b) quotient,
          mul_right_comm c m b,
          remainder,
        ))
        e small

  pub minus_minus : (x y : ℕ) → x + (q * b + r) ≡ m → y + b ≡ m → x < m → (q * y + v) % m ≡ x
  minus_minus x y e f small =
      from_opposite m (q * b + r) x (q * y + v) (q + d)
        (omega (arith, mul-add q y b, add-mul q d m, ap (λ z. q * z) f, remainder)) e small

-- A word of the sign 0 is its magnitude; one of the sign 1 is the opposite of it.
pub magnitude_cases :
    (w x : ℕ)
    → x < 2 ^ suc w
    → ((shr x w ≡ 0) × (magnitude (suc w) x ≡ x))
      ⊎ ((shr x w ≡ 1) × (x + magnitude (suc w) x ≡ 2 ^ suc w) × (1 ≤ x))
unfolding magnitude
magnitude_cases w x small = elim (Bool-cases (shr x w == 0)) [
  | inl plus ↦ inl (ground arith)
  | inr minus ↦
      let double : 2 ^ suc w ≡ 2 ^ w * 2 = pow-suc 2 w in
      let sign : shr x w < 2 = (div-lt_iff_lt-mul (pow_pos w)).1 (omega (arith, small, double)) in
      let one : shr x w ≡ 1 = ground (arith, sign) in
      let some : 1 ≤ x = ground (arith, zero-div (2 ^ w), one) in
      let less : sub_word (suc w) x 1 ≡ x - 1 = sub_word-eq_of_le (suc w) x 1 some small in
      inr (one, ground (arith, less, one, small, some), some)
]

pub magnitude-lt : (w x : ℕ) → x < 2 ^ suc w → magnitude (suc w) x < 2 ^ suc w
magnitude-lt w x small = elim (magnitude_cases w x small) [
  | inl plus ↦ rw (plus.1) small
  | inr minus ↦ omega (arith, minus.1, minus.2)
]

pub magnitude_pos : (w x : ℕ) → x < 2 ^ suc w → x ≢ 0 → 0 < magnitude (suc w) x
magnitude_pos w x small some = elim (magnitude_cases w x small) [
  | inl plus ↦ rw (plus.1) (omega (arith, some))
  | inr minus ↦ omega (arith, minus.1, small)
]
