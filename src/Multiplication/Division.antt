-- ===== src/Multiplication/Division.antt =====
-- Signed division: the quotient and the remainder give the dividend back.
use mipt_mips.Prelude.{
  ℕ, Bool, true, false, zero, suc, ◌+◌, ◌-◌, ◌*◌, ◌/◌, ◌%◌, ◌^◌, ◌<◌, ◌≡◌, ◌≢◌, refl, ap, ◌∙◌, ◌==◌,
  ◌&&◌, arith, sym, Bool-cases, ◌⊎◌, inl, inr,
}
use native.Mathlib.Nat.{mul-add, mod-eq_of_lt, div-add-mod', mod-lt, pow-suc, div-le_self}
use mipt_mips.Prelude.Word.{sub_word, shr}
use mipt_mips.Prelude.Digits.{pow_pos}
use mipt_mips.Macro.{msb_set, all_ones}
use mipt_mips.Macro.Laws.{all_ones_lem}
use mipt_mips.Multiplication.{
  magnitude, signed_quotient, signed_remainder, is_signed_division_overflow, riscv_division_signed,
  riscv_remainder_signed,
}
use mipt_mips.Multiplication.Signs.{
  mod_cancel, opposite_zero, opposite_pos, negated, plus_minus, minus_plus, minus_minus,
  magnitude_cases, magnitude-lt, magnitude_pos,
}

quotient_same :
    (w x y : ℕ)
    → shr x w ≡ shr y w
    → signed_quotient (suc w) x y ≡ magnitude (suc w) x / magnitude (suc w) y
unfolding signed_quotient
quotient_same w x y e = ground (arith, e)

quotient_other :
    (w x y : ℕ)
    → shr x w ≢ shr y w
    → signed_quotient (suc w) x y ≡ sub_word (suc w) 0 (magnitude (suc w) x / magnitude (suc w) y)
unfolding signed_quotient
quotient_other w x y e = ground (arith, e)

remainder_plus :
    (w x y : ℕ)
    → shr x w ≡ 0
    → signed_remainder (suc w) x y ≡ magnitude (suc w) x % magnitude (suc w) y
unfolding signed_remainder
remainder_plus w x y e = ground (arith, e)

remainder_minus :
    (w x y : ℕ)
    → shr x w ≡ 1
    → signed_remainder (suc w) x y ≡ sub_word (suc w) 0 (magnitude (suc w) x % magnitude (suc w) y)
unfolding signed_remainder
remainder_minus w x y e = ground (arith, e)

signed_lem :
    (w x y : ℕ)
    → x < 2 ^ suc w
    → y < 2 ^ suc w
    → y ≢ 0
    → (signed_quotient (suc w) x y * y + signed_remainder (suc w) x y) % 2 ^ suc w ≡ x
signed_lem w x y hx hy ny =
    let m : ℕ = 2 ^ suc w in
    let a : ℕ = magnitude (suc w) x in
    let b : ℕ = magnitude (suc w) y in
    let q : ℕ = a / b in
    let r : ℕ = a % b in
    let a_small : a < m = magnitude-lt w x hx in
    let b_small : b < m = magnitude-lt w y hy in
    let b_pos : 0 < b = magnitude_pos w y hy ny in
    let whole : q * b + r ≡ a = div-add-mod' a b in
    let r_small : r < m = omega (arith, mod-lt a b_pos, b_small) in
    let q_small : q < m = omega (arith, div-le_self a b, a_small) in
    let (c, quotient) = negated (suc w) q q_small in
    let (d, remainder) = negated (suc w) r r_small in
    let u : ℕ = sub_word (suc w) 0 q in
    let v : ℕ = sub_word (suc w) 0 r in
    elim (magnitude_cases w x hx) [
      | inl px ↦ elim (magnitude_cases w y hy) [
        | inl py ↦
            rw (quotient_same w x y (px.0 ∙ sym py.0), remainder_plus w x y px.0)
              (ap (λ z. (q * z + r) % m) (sym py.1)
                ∙ ap (λ z. z % m) whole
                ∙ mod-eq_of_lt a_small
                ∙ px.1)
        | inr my ↦
            rw (quotient_other w x y (λ e. omega (arith, e, px.0, my.0)), remainder_plus w x y px.0)
              (plus_minus m q r b u v c d quotient remainder y my.1 (omega (arith, whole, a_small))
                ∙ whole
                ∙ px.1)
      ]
      | inr mx ↦ elim (magnitude_cases w y hy) [
        | inl py ↦
            rw
              (quotient_other w x y (λ e. omega (arith, e, py.0, mx.0)), remainder_minus w x y mx.0)
              (ap (λ z. (u * z + v) % m) (sym py.1)
                ∙ minus_plus m q r b u v c d quotient remainder x (omega (arith, whole, mx.1)) hx)
        | inr my ↦
            rw (quotient_same w x y (mx.0 ∙ sym my.0), remainder_minus w x y mx.0)
              (minus_minus m q r b u v c d quotient remainder x y (omega (arith, whole, mx.1)) my.1
                hx)
      ]
    ]

-- The remainder has the sign of the dividend, or is 0, and is less than the divisor.
abbrev pub IsRemainder : ℕ → ℕ → ℕ → ℕ → Type 0
IsRemainder w x y rest =
    ((shr x (w - 1) ≡ 0) × (rest < magnitude w y))
    ⊎ ((shr x (w - 1) ≡ 1) × ((rest ≡ 0) ⊎ (2 ^ w - rest < magnitude w y)))

opposite_remainder :
    (w r b : ℕ) → r < b → b < 2 ^ w → (sub_word w 0 r ≡ 0) ⊎ (2 ^ w - sub_word w 0 r < b)
opposite_remainder w zero b h small = inl (opposite_zero w)
opposite_remainder w (suc r) b h small =
    inr (
      rw (opposite_pos w (suc r) (omega arith) (omega (arith, h, small))) (omega (arith, h, small)))

zero-IsRemainder : (w x y : ℕ) → x < 2 ^ suc w → 0 < magnitude (suc w) y → IsRemainder (suc w) x y 0
zero-IsRemainder w x y hx pos =
    let pred : suc w - 1 ≡ w = omega arith in
    rw pred
      (elim (magnitude_cases w x hx) [ inl px ↦ inl (px.0, pos) | inr mx ↦ inr (mx.0, inl refl) ])

signed_remainder-IsRemainder :
    (w x y : ℕ)
    → x < 2 ^ suc w
    → y < 2 ^ suc w
    → y ≢ 0
    → IsRemainder (suc w) x y (signed_remainder (suc w) x y)
signed_remainder-IsRemainder w x y hx hy ny =
    let r : ℕ = magnitude (suc w) x % magnitude (suc w) y in
    let r_small : r < magnitude (suc w) y =
      mod-lt (magnitude (suc w) x) (magnitude_pos w y hy ny) in
    let b_small = magnitude-lt w y hy in
    let pred : suc w - 1 ≡ w = omega arith in
    rw pred (elim (magnitude_cases w x hx) [
      | inl px ↦ inl (px.0, rw (remainder_plus w x y px.0) r_small)
      | inr mx ↦
          inr
            (mx.0, rw (remainder_minus w x y mx.0) (opposite_remainder (suc w) r _ r_small b_small))
    ])

msb_set_lem : (w : ℕ) → msb_set (suc w) ≡ 2 ^ w
unfolding msb_set
msb_set_lem w =
    let pred : suc w - 1 ≡ w = omega arith in
    let one : 1 * 2 ^ w ≡ 2 ^ w = omega arith in
    rw (pred, one) (mod-eq_of_lt (omega (arith, pow-suc 2 w, pow_pos w)))

and_split : (a b : Bool) → (a && b) ≡ true → (a ≡ true) × (b ≡ true)
and_split a b h = ground (arith, h)

overflow_lem :
    (w x y : ℕ)
    → is_signed_division_overflow (suc w) x y ≡ true
    → (msb_set (suc w) * y + 0) % 2 ^ suc w ≡ x
unfolding is_signed_division_overflow msb_set
overflow_lem w x y h =
    let both = and_split (y == all_ones (suc w)) (x == msb_set (suc w)) h in
    let ones : y ≡ all_ones (suc w) = ground (arith, both.0) in
    let top : x ≡ msb_set (suc w) = ground (arith, both.1) in
    let msb : msb_set (suc w) ≡ 2 ^ w = msb_set_lem w in
    let double : 2 ^ suc w ≡ 2 ^ w * 2 = pow-suc 2 w in
    let small : 2 ^ w < 2 ^ suc w = omega (arith, double, pow_pos w) in
    let next : y + 1 ≡ 2 ^ suc w =
      omega (arith, ones, all_ones_lem (suc w) (omega arith), pow_pos (suc w)) in
    rw msb (
      mod_cancel (2 ^ w * y + 0) (2 ^ w) 1 (2 ^ w) (2 ^ suc w)
        (omega (arith, mul-add (2 ^ w) y 1, ap (λ z. 2 ^ w * z) next, double))
      ∙ mod-eq_of_lt small
      ∙ sym (top ∙ msb))

-- Of a word of `w` bits the signed quotient, times a divisor that is not 0, and the signed remainder
-- give the dividend back modulo 2^w, also where the division overflows; the remainder has the sign of
-- the dividend, or is 0, and is less than the divisor.
pub division-IsRemainder :
    (w x y : ℕ)
    → 0 < w
    → x < 2 ^ w
    → y < 2 ^ w
    → y ≢ 0
    → ((riscv_division_signed w x y * y + riscv_remainder_signed w x y) % 2 ^ w ≡ x)
      × IsRemainder w x y (riscv_remainder_signed w x y)
unfolding riscv_division_signed riscv_remainder_signed
division-IsRemainder zero x y pos hx hy ny = absurd (omega (arith, pos))
division-IsRemainder (suc w) x y pos hx hy ny =
    let some : (y == 0) ≡ false = ground (arith, ny) in
    elim (Bool-cases (is_signed_division_overflow (suc w) x y)) [
      | inl over ↦
          rw (some, over)
            (overflow_lem w x y over, zero-IsRemainder w x y hx (magnitude_pos w y hy ny))
      | inr fits ↦
          rw (some, fits) (signed_lem w x y hx hy ny, signed_remainder-IsRemainder w x y hx hy ny)
    ]
