-- ===== src/Multiplication/Products.antt =====
-- The halves of a product and the parts of a quotient.
use mipt_mips.Prelude.{
  ℕ, zero, suc, ◌+◌, ◌*◌, ◌/◌, ◌%◌, ◌^◌, ◌<◌, ◌≡◌, refl, ◌==◌, arith, sym, Bool-cases, inl, inr,
}
use mipt_mips.Prelude.Digits.{pow_pos, bit_and_ones, mul-pow-suc}
use native.Mathlib.Nat.{
  pow-suc, mod-eq_of_lt, mod-lt, div-add-mod', mul-lt-mul_of_pos_left, mul-lt-mul_of_pos_right,
  mul-pos, mod-mod, div-lt_iff_lt-mul, mul_comm,
}
use mipt_mips.Macro.Laws.{all_ones_lem}
use mipt_mips.Multiplication.{mips_multiplication}

pow_double : (h : ℕ) → 2 ^ (2 * h) ≡ 2 ^ h * 2 ^ h
pow_double zero = refl
pow_double (suc h) =
    let e : 2 * suc h ≡ suc (suc (2 * h)) = omega arith in
    let left : 2 ^ suc h * 2 ^ suc h ≡ 2 * (2 ^ suc h * 2 ^ h) = mul-pow-suc (2 ^ suc h) h in
    let right : 2 ^ h * 2 ^ suc h ≡ 2 * (2 ^ h * 2 ^ h) = mul-pow-suc (2 ^ h) h in
    rw (e, left)
      (omega (
        arith,
        pow_double h,
        pow-suc 2 (2 * h),
        pow-suc 2 (suc (2 * h)),
        right,
        mul_comm (2 ^ suc h) (2 ^ h),
      ))

product_fits : (w x y : ℕ) → x < 2 ^ w → y < 2 ^ w → x * y < 2 ^ (2 * w)
product_fits w x y p q = rw (pow_double w) (elim (Bool-cases (x == 0)) [
  | inl none ↦ let e : x ≡ 0 = ground arith in rw e (omega (arith, mul-pos (pow_pos w) (pow_pos w)))
  | inr some ↦
      let positive : 0 < x = ground arith in
      omega (arith, mul-lt-mul_of_pos_left q positive, mul-lt-mul_of_pos_right p (pow_pos w))
])

-- The two results of a multiplication of words of `w` bits are the low and the high word of
-- the exact product.
pub mips_multiplication_lem :
    (w x y : ℕ)
    → 0 < w
    → x < 2 ^ w
    → y < 2 ^ w
    → ((mips_multiplication w x y).1 * 2 ^ w + (mips_multiplication w x y).0 ≡ x * y)
      × ((mips_multiplication w x y).0 < 2 ^ w)
unfolding mips_multiplication
mips_multiplication_lem w x y pos p q =
    let exact : x * y % 2 ^ (2 * w) ≡ x * y = mod-eq_of_lt (product_fits w x y p q) in
    rw (exact, all_ones_lem w pos, bit_and_ones)
      (
        (let high : x * y / 2 ^ w < 2 ^ w =
              (div-lt_iff_lt-mul (pow_pos w)).1
                (rw (sym (pow_double w)) (product_fits w x y p q)) in
            rw (mod-mod, mod-eq_of_lt high) (div-add-mod' (x * y) (2 ^ w))),
        rw mod-mod (mod-lt (x * y) (pow_pos w)),
      )
