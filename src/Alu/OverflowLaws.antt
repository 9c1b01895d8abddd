-- ===== src/Alu/OverflowLaws.antt =====
-- When the tests of addition and subtraction report an overflow.
use mipt_mips.Prelude.{
  ℕ, zero, suc, ◌+◌, ◌-◌, ◌*◌, ◌/◌, ◌^◌, ◌<◌, ◌≡◌, refl, ltb, leb, if◌then◌else◌, bit_and, arith,
  ap,
}
use mipt_mips.Prelude.Digits.{pow_pos}
use mipt_mips.Prelude.Bits.{bit_and_low}
use native.Mathlib.Nat.{pow-suc}
use mipt_mips.Macro.Laws.{msb_set-suc}
use mipt_mips.Alu.Primitives.{is_negative}

-- A mask of one digit.
pub bit_and_top :
    (k a : ℕ) → a < 2 ^ suc k → bit_and a (2 ^ k) ≡ (if ltb a (2 ^ k) then 0 else 2 ^ k)
bit_and_top zero zero h = refl
bit_and_top zero (suc zero) h = refl
bit_and_top zero (suc (suc a)) h = absurd (omega arith)
bit_and_top (suc k) a h =
    let halves = bit_and_top k (a / 2) (omega (arith, pow-suc 2 (suc k))) in
    let p = pow-suc 2 k in
    let e : 2 ^ suc k / 2 ≡ 2 ^ k = omega arith in
    let step : bit_and a (2 ^ suc k) ≡ bit_and (a / 2) (2 ^ k) * 2 =
      omega (arith, bit_and_low a (2 ^ suc k), ap (bit_and (a / 2)) e) in
    ground (arith, halves, step)

pub is_negative_lem : (k a : ℕ) → a < 2 ^ suc k → is_negative (suc k) a ≡ leb (2 ^ k) a
unfolding is_negative
is_negative_lem k a h = rw (msb_set-suc k, bit_and_top k a h) (ground (arith, pow_pos k))

-- The signed value of a word of `suc k` bits, moved up by 2 ^ k to a natural number.
abbrev pub excess : ℕ → ℕ → ℕ
excess k a = if ltb a (2 ^ k) then a + 2 ^ k else a - 2 ^ k
