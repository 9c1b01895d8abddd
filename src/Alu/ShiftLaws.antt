-- ===== src/Alu/ShiftLaws.antt =====
-- Rotations and the arithmetic shift, digit by digit.
use mipt_mips.Prelude.{
  ℕ, suc, ◌+◌, ◌-◌, ◌*◌, ◌%◌, ◌^◌, ◌<◌, ◌≡◌, true, false, ltb, leb, ◌==◌, if◌then◌else◌, arith,
  Bool-cases, inl, inr,
}
use mipt_mips.Prelude.Word.{shl, shr, not_word}
use mipt_mips.Prelude.Digits.{
  pow_pos, testbit, testbit_ext, testbit-or, testbit-shr, testbit-shl, testbit-mod, testbit-not,
  testbit_above, lt_of_testbit,
}
use native.Mathlib.Nat.{mod-eq_of_lt, div-le_self}
use mipt_mips.Macro.{ones_rs}
use mipt_mips.Macro.Laws.{msb_set-suc}
use mipt_mips.Alu.Primitives.{circ_ls, circ_rs, arithmetic_rs}
use mipt_mips.Alu.OverflowLaws.{bit_and_top}

-- For a rotation to the left by less than the width, digit `i` of the result comes from `shamt`
-- places below, around the end.
pub testbit-circ_ls :
    (w x shamt i : ℕ)
    → x < 2 ^ w
    → shamt < w
    → i < w
    → testbit (circ_ls w x shamt) i ≡ testbit x (if ltb i shamt then i + w - shamt else i - shamt)
unfolding circ_ls
testbit-circ_ls w x shamt i fits small inside =
    let e : shamt % w ≡ shamt = mod-eq_of_lt small in
    rw e (
      ground (
        arith,
        testbit-or (shl w x shamt) (shr x (w - shamt)) i,
        testbit-mod (x * 2 ^ shamt) w i,
        testbit-shl x shamt i,
        testbit-shr x (w - shamt) i,
        testbit_above x w (i + (w - shamt)) fits,
      ))

-- For a rotation to the right by less than the width, digit `i` of the result comes from `shamt`
-- places above, around the end.
pub testbit-circ_rs :
    (w x shamt i : ℕ)
    → x < 2 ^ w
    → shamt < w
    → i < w
    → testbit (circ_rs w x shamt) i
      ≡ testbit x (if ltb (i + shamt) w then i + shamt else i + shamt - w)
unfolding circ_rs
testbit-circ_rs w x shamt i fits small inside =
    let e : shamt % w ≡ shamt = mod-eq_of_lt small in
    rw e (
      ground (
        arith,
        testbit-or (shr x shamt) (shl w x (w - shamt)) i,
        testbit-mod (x * 2 ^ (w - shamt)) w i,
        testbit-shl x (w - shamt) i,
        testbit-shr x shamt i,
        testbit_above x w (i + shamt) fits,
      ))

-- The arithmetic shift of a word moves its digits down by `shamt` and fills the digits above with
-- the sign.
pub testbit-arithmetic_rs :
    (k x shamt i : ℕ)
    → x < 2 ^ suc k
    → i < suc k
    → testbit (arithmetic_rs (suc k) x shamt) i
      ≡ (if ltb (i + shamt) (suc k) then testbit x (i + shamt) else leb (2 ^ k) x)
unfolding arithmetic_rs ones_rs
testbit-arithmetic_rs k x shamt i fits inside =
    let flipped : ℕ = not_word (suc k) x in
    let flipped_bound : flipped < 2 ^ suc k = omega (arith, pow_pos (suc k)) in
    let bound : shr flipped shamt < 2 ^ suc k =
      omega (arith, div-le_self flipped (2 ^ shamt), flipped_bound) in
    let some_top : (2 ^ k == 0) ≡ false = ground (arith, pow_pos k) in
    elim (Bool-cases (ltb x (2 ^ k))) [
      | inl low ↦
          let sign : leb (2 ^ k) x ≡ false = ground arith in
          rw (msb_set-suc k, bit_and_top k x fits, low, sign)
            (ground (arith, testbit-shr x shamt i, testbit_above x (suc k) (i + shamt) fits))
      | inr high ↦
          let sign : leb (2 ^ k) x ≡ true = ground arith in
          rw (msb_set-suc k, bit_and_top k x fits, high, sign, some_top)
            (ground (
              arith,
              testbit-not (suc k) (shr flipped shamt) i bound,
              testbit-shr flipped shamt i,
              testbit-not (suc k) x (i + shamt) fits,
              testbit_above flipped (suc k) (i + shamt) flipped_bound,
            ))
    ]

circ_ls-lt : (w x shamt : ℕ) → x < 2 ^ w → shamt < w → circ_ls w x shamt < 2 ^ w
unfolding circ_ls
circ_ls-lt w x shamt fits small =
    let e : shamt % w ≡ shamt = mod-eq_of_lt small in
    rw e (
      lt_of_testbit w _ λ i above. ground (
        arith,
        testbit-or (shl w x shamt) (shr x (w - shamt)) i,
        testbit-mod (x * 2 ^ shamt) w i,
        testbit-shr x (w - shamt) i,
        testbit_above x w (i + (w - shamt)) fits,
        testbit_above x w i fits,
      ))

circ_rs-lt : (w x shamt : ℕ) → x < 2 ^ w → shamt < w → circ_rs w x shamt < 2 ^ w
unfolding circ_rs
circ_rs-lt w x shamt fits small =
    let e : shamt % w ≡ shamt = mod-eq_of_lt small in
    rw e (
      lt_of_testbit w _ λ i above. ground (
        arith,
        testbit-or (shr x shamt) (shl w x (w - shamt)) i,
        testbit-mod (x * 2 ^ (w - shamt)) w i,
        testbit-shr x shamt i,
        testbit_above x w (i + shamt) fits,
        testbit_above x w i fits,
      ))

-- By less than the width, a rotation to the right undoes the one to the left.
pub circ_rs-circ_ls :
    (w x shamt : ℕ) → x < 2 ^ w → shamt < w → circ_rs w (circ_ls w x shamt) shamt ≡ x
circ_rs-circ_ls w x shamt fits small =
    let turned : ℕ = circ_ls w x shamt in
    let turned_fits = circ_ls-lt w x shamt fits small in
    testbit_ext _ _ λ i. elim (Bool-cases (ltb i w)) [
      | inl inside ↦ ground (
        arith,
        testbit-circ_rs w turned shamt i turned_fits small,
        testbit-circ_ls w x shamt (i + shamt) fits small,
        testbit-circ_ls w x shamt (i + shamt - w) fits small,
      )
      | inr outside ↦ ground (
        arith,
        testbit_above x w i fits,
        testbit_above (circ_rs w turned shamt) w i (circ_rs-lt w turned shamt turned_fits small),
      )
    ]
