-- ===== src/RegisterFile/Carry.antt =====
-- The writes of LO and HI with a carry or a borrow between them.
use mipt_mips.Prelude.{
  ℕ, ◌+◌, ◌-◌, ◌^◌, ◌<◌, ◌≤◌, ◌%◌, ◌≡◌, ◌≢◌, ap, ◌∙◌, Bool, false, some, ltb, ◌==◌, if◌then◌else◌,
  set, length, bit_and, ◌>>=◌, arith, length-set, get_or, get_elem?-eq-get_or, Bool-cases, inl, inr,
}
use mipt_mips.Prelude.Word.{narrow}
use mipt_mips.Prelude.Digits.{bit_and_ones, zero-bit_or, pow_pos}
use native.Mathlib.Nat.{mod-eq_of_lt, mod-lt, pow-le-pow_right}
use mipt_mips.Operation.{Accumulation}
use mipt_mips.RegisterFile.{
  mips_register, Registers, read, write, write_masked, apply_mask, accumulate, addition,
  subtraction, carry, write_accumulated,
}
use mipt_mips.RegisterFile.Access.{put-some}

bit_and-zero : (a : ℕ) → bit_and a 0 ≡ 0
bit_and-zero a = bit_and_ones 0 a ∙ omega arith

write_masked_full :
    (w : ℕ) (rf : Registers) (num val : ℕ)
    → num < length rf
    → num ≢ 0
    → val < 2 ^ w
    → write_masked w mips_register rf num val (2 ^ w - 1) ≡ some (set rf num val)
unfolding write_masked apply_mask read write
write_masked_full w rf num val inside nonzero fits =
    let e : 2 ^ w - 1 - (2 ^ w - 1) ≡ 0 = omega arith in
    let z : (num == 0) ≡ false = ground arith in
    rw
      (
        get_elem?-eq-get_or rf num 0 inside,
        e,
        bit_and-zero,
        bit_and_ones,
        mod-eq_of_lt fits,
        zero-bit_or,
        z,
      )
      (put-some rf num val inside)

word_fits : (w a : ℕ) → 32 ≤ w → a % 2 ^ 32 < 2 ^ w
word_fits w a wide =
    omega (arith, mod-lt a (pow_pos 32), pow-le-pow_right {n = 2} (omega arith) wide)

carry_plus :
    (w : ℕ) (rf : Registers)
    → 32 ≤ w
    → 32 < length rf
    → carry w mips_register rf (2 ^ w - 1) Accumulation.plus
      ≡ some (set rf 32 ((get_or rf 32 0 % 2 ^ 32 + 1) % 2 ^ 32))
unfolding carry accumulate read addition
carry_plus w rf wide inside =
    let sum : ℕ = get_or rf 32 0 % 2 ^ 32 + 1 in
    let e = get_elem?-eq-get_or rf 32 0 inside in
    ap
      (λ o. (o >>= λ old. some (addition (narrow 32 old) (narrow 32 1))) >>= λ r.
        write_masked w mips_register rf 32 r.0 (2 ^ w - 1))
      e
    ∙ write_masked_full w rf 32 (sum % 2 ^ 32) inside (omega arith) (word_fits w sum wide)

carry_minus :
    (w : ℕ) (rf : Registers)
    → 32 ≤ w
    → 32 < length rf
    → carry w mips_register rf (2 ^ w - 1) Accumulation.minus
      ≡ some (set rf 32 ((get_or rf 32 0 % 2 ^ 32 + 2 ^ 32 - 1) % 2 ^ 32))
unfolding carry accumulate read subtraction
carry_minus w rf wide inside =
    let difference : ℕ = get_or rf 32 0 % 2 ^ 32 + 2 ^ 32 - 1 in
    let e = get_elem?-eq-get_or rf 32 0 inside in
    ap
      (λ o. (o >>= λ old. some (subtraction (narrow 32 old) (narrow 32 1))) >>= λ r.
        write_masked w mips_register rf 32 r.0 (2 ^ w - 1))
      e
    ∙ write_masked_full w rf 32 (difference % 2 ^ 32) inside (omega arith)
        (word_fits w difference wide)

-- LO takes the sum, and HI the carry out of it.
pub write_lo_plus :
    (w : ℕ) (rf : Registers) (v : ℕ)
    → 32 ≤ w
    → 33 < length rf
    → write_accumulated w mips_register rf 33 v (2 ^ w - 1) Accumulation.plus
      ≡ some (
          set
            (if ltb (2 ^ 32 - 1 - get_or rf 33 0 % 2 ^ 32) (v % 2 ^ 32)
              then set rf 32 ((get_or rf 32 0 % 2 ^ 32 + 1) % 2 ^ 32)
              else rf)
            33
            ((get_or rf 33 0 % 2 ^ 32 + v % 2 ^ 32) % 2 ^ 32))
unfolding write_accumulated accumulate read addition
write_lo_plus w rf v wide inside =
    let low : ℕ = get_or rf 33 0 % 2 ^ 32 + v % 2 ^ 32 in
    elim (Bool-cases (ltb (2 ^ 32 - 1 - get_or rf 33 0 % 2 ^ 32) (v % 2 ^ 32))) [
      | inl over ↦
          rw (get_elem?-eq-get_or rf 33 0 inside, over, carry_plus w rf wide (omega arith))
            (write_masked_full w _ 33 _
              (omega (arith, length-set rf 32 ((get_or rf 32 0 % 2 ^ 32 + 1) % 2 ^ 32)))
              (omega arith) (word_fits w low wide))
      | inr fits ↦
          rw (get_elem?-eq-get_or rf 33 0 inside, fits)
            (write_masked_full w _ 33 _ inside (omega arith) (word_fits w low wide))
    ]

pub write_lo_minus :
    (w : ℕ) (rf : Registers) (v : ℕ)
    → 32 ≤ w
    → 33 < length rf
    → write_accumulated w mips_register rf 33 v (2 ^ w - 1) Accumulation.minus
      ≡ some (
          set
            (if ltb (get_or rf 33 0 % 2 ^ 32) (v % 2 ^ 32)
              then set rf 32 ((get_or rf 32 0 % 2 ^ 32 + 2 ^ 32 - 1) % 2 ^ 32)
              else rf)
            33
            ((get_or rf 33 0 % 2 ^ 32 + 2 ^ 32 - v % 2 ^ 32) % 2 ^ 32))
unfolding write_accumulated accumulate read subtraction
write_lo_minus w rf v wide inside =
    let low : ℕ = get_or rf 33 0 % 2 ^ 32 + 2 ^ 32 - v % 2 ^ 32 in
    elim (Bool-cases (ltb (get_or rf 33 0 % 2 ^ 32) (v % 2 ^ 32))) [
      | inl over ↦
          rw (get_elem?-eq-get_or rf 33 0 inside, over, carry_minus w rf wide (omega arith))
            (write_masked_full w _ 33 _
              (omega (arith, length-set rf 32 ((get_or rf 32 0 % 2 ^ 32 + 2 ^ 32 - 1) % 2 ^ 32)))
              (omega arith) (word_fits w low wide))
      | inr fits ↦
          rw (get_elem?-eq-get_or rf 33 0 inside, fits)
            (write_masked_full w _ 33 _ inside (omega arith) (word_fits w low wide))
    ]

-- HI has no carry to give.
write_hi :
    (w : ℕ) (rf : Registers) (v : ℕ) (a : Accumulation) (result : ℕ) (above : Bool)
    → 32 ≤ w
    → 32 < length rf
    → accumulate w rf 32 v a ≡ some (result % 2 ^ 32, above)
    → write_accumulated w mips_register rf 32 v (2 ^ w - 1) a ≡ some (set rf 32 (result % 2 ^ 32))
unfolding write_accumulated
write_hi w rf v a result above wide inside e =
    rw e (write_masked_full w rf 32 _ inside (omega arith) (word_fits w result wide))

accumulate_plus :
    (w : ℕ) (rf : Registers) (num v : ℕ)
    → num < length rf
    → accumulate w rf num v Accumulation.plus
      ≡ some (addition (get_or rf num 0 % 2 ^ 32) (v % 2 ^ 32))
unfolding accumulate read
accumulate_plus w rf num v inside = rw (get_elem?-eq-get_or rf num 0 inside)

accumulate_minus :
    (w : ℕ) (rf : Registers) (num v : ℕ)
    → num < length rf
    → accumulate w rf num v Accumulation.minus
      ≡ some (subtraction (get_or rf num 0 % 2 ^ 32) (v % 2 ^ 32))
unfolding accumulate read
accumulate_minus w rf num v inside = rw (get_elem?-eq-get_or rf num 0 inside)

pub write_hi_plus :
    (w : ℕ) (rf : Registers) (v : ℕ)
    → 32 ≤ w
    → 32 < length rf
    → write_accumulated w mips_register rf 32 v (2 ^ w - 1) Accumulation.plus
      ≡ some (set rf 32 ((get_or rf 32 0 % 2 ^ 32 + v % 2 ^ 32) % 2 ^ 32))
unfolding addition
write_hi_plus w rf v wide inside =
    write_hi w rf v Accumulation.plus (get_or rf 32 0 % 2 ^ 32 + v % 2 ^ 32) _ wide inside
      (accumulate_plus w rf 32 v inside)

pub write_hi_minus :
    (w : ℕ) (rf : Registers) (v : ℕ)
    → 32 ≤ w
    → 32 < length rf
    → write_accumulated w mips_register rf 32 v (2 ^ w - 1) Accumulation.minus
      ≡ some (set rf 32 ((get_or rf 32 0 % 2 ^ 32 + 2 ^ 32 - v % 2 ^ 32) % 2 ^ 32))
unfolding subtraction
write_hi_minus w rf v wide inside =
    write_hi w rf v Accumulation.minus (get_or rf 32 0 % 2 ^ 32 + 2 ^ 32 - v % 2 ^ 32) _ wide inside
      (accumulate_minus w rf 32 v inside)
