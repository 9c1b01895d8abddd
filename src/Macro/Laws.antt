-- ===== src/Macro/Laws.antt =====
-- The masks and the sign extension of infra/macro.h, as arithmetic.
use mipt_mips.Prelude.{
  ℕ, zero, suc, ◌+◌, ◌-◌, ◌*◌, ◌%◌, ◌^◌, ◌≤◌, ◌<◌, ◌≡◌, inl, inr, false, ◌==◌, ltb, if◌then◌else◌,
  bit_or, arith, Bool-cases, lt→ltb,
}
use native.Mathlib.Nat.{
  pow-suc, pow-le-pow_right, mod-eq_of_lt, mod-lt, one-mul, add-mod_right, add-mul-mod_self_left,
}
use mipt_mips.Prelude.Word.{sub_word, shl}
use mipt_mips.Prelude.Digits.{pow_pos, bit_or_fields, bit_or_comm, bit_xor_top, bit_and_ones}
use mipt_mips.Macro.{msb_set, all_ones, ones_ls, bitmask, sign_extension}

pub pow_lt : (n w : ℕ) → n < w → 2 ^ n < 2 ^ w
pow_lt n w h = omega (arith, pow-suc 2 n, pow_pos n, pow-le-pow_right {n = 2} (omega arith) h)

pub msb_set-suc : (w : ℕ) → msb_set (suc w) ≡ 2 ^ w
unfolding msb_set
msb_set-suc w =
    let e : suc w - 1 ≡ w = omega arith in
    rw (e, one-mul) (mod-eq_of_lt (pow_lt w (suc w) (omega arith)))

-- A small difference of words does not wrap.
pub sub_word-eq_of_le : (w a b : ℕ) → b ≤ a → a < 2 ^ w → sub_word w a b ≡ a - b
sub_word-eq_of_le w a b le small =
    let e : a + 2 ^ w - b ≡ a - b + 2 ^ w = omega arith in
    rw (e, add-mod_right) (mod-eq_of_lt (omega arith))

-- `all_ones<T>()` has every bit of the type set.
pub all_ones_lem : (w : ℕ) → 0 < w → all_ones w ≡ 2 ^ w - 1
unfolding all_ones
all_ones_lem zero h = absurd (omega arith)
all_ones_lem (suc w) h =
    let below : sub_word (suc w) (2 ^ w) 1 ≡ 2 ^ w - 1 =
      sub_word-eq_of_le (suc w) (2 ^ w) 1 (pow_pos w) (pow_lt w (suc w) (omega arith)) in
    let joined : bit_or (2 ^ w) (2 ^ w - 1) ≡ 2 ^ w + (2 ^ w - 1) =
      rw (one-mul (2 ^ w)) at (bit_or_fields w 1 (2 ^ w - 1) (omega (arith, pow_pos w))) in
    rw (msb_set-suc w, below, bit_or_comm, joined) (omega (arith, pow-suc 2 w, pow_pos w))

pred_mul : (a b : ℕ) → 0 < a → a ≤ b → (b - 1 - 0) * a ≡ b - a + b * (a - 1)
pred_mul zero b p h = absurd (omega arith)
pred_mul (suc a) zero p h = absurd (omega arith)
pred_mul (suc a) (suc b) p h =
    let e : suc b - 1 - 0 ≡ b = omega arith in
    let f : suc a - 1 ≡ a = omega arith in rw (e, f) (omega arith)

ones_ls-zero : (w n : ℕ) → n ≤ w → ones_ls w 0 n ≡ 2 ^ n - 1
unfolding ones_ls
ones_ls-zero w n h =
    let n_le = pow-le-pow_right {n = 2} (omega arith) h in
    let product : (2 ^ w - 1 - 0) * 2 ^ n ≡ 2 ^ w - 2 ^ n + 2 ^ w * (2 ^ n - 1) =
      pred_mul (2 ^ n) (2 ^ w) (pow_pos n) n_le in
    let shifted : (2 ^ w - 1 - 0) * 2 ^ n % 2 ^ w ≡ 2 ^ w - 2 ^ n =
      rw (product, add-mul-mod_self_left) (mod-eq_of_lt (omega (arith, pow_pos n, pow_pos w))) in
    omega (arith, shifted, pow_pos n, pow_pos w)

-- `bitmask<T>(n)` has exactly the lowest `n` bits set, for every count up to the width.
pub bitmask_lem : (w n : ℕ) → 0 < w → n ≤ w → bitmask w n ≡ 2 ^ n - 1
unfolding bitmask
bitmask_lem w n pos h = ground (arith, all_ones_lem w pos, ones_ls-zero w n h)

-- Sign extension from `suc bits` bits: the low bits stay, and the bits above copy the highest.
pub sign_extension_lem :
    (w value bits : ℕ)
    → suc bits < w
    → sign_extension w value (suc bits) ≡ (
        if ltb (value % 2 ^ suc bits) (2 ^ bits)
        then value % 2 ^ suc bits
        else value % 2 ^ suc bits + 2 ^ w - 2 ^ suc bits)
unfolding sign_extension
sign_extension_lem w value bits h =
    let e : suc bits - 1 ≡ bits = omega arith in
    let some_bits : (suc bits == 0) ≡ false = ground arith in
    let msb : shl w 1 bits ≡ 2 ^ bits = rw (one-mul) (mod-eq_of_lt (pow_lt bits w (omega arith))) in
    let small = mod-lt value (pow_pos (suc bits)) in
    rw
      (
        lt→ltb _ _ h,
        some_bits,
        e,
        msb,
        bitmask_lem w (suc bits) (omega arith) (omega arith),
        bit_and_ones (suc bits) value,
        bit_xor_top bits (value % 2 ^ suc bits) small,
      )
      (extend (value % 2 ^ suc bits) small)
  where
    extend :
        (r : ℕ)
        → r < 2 ^ suc bits
        → sub_word w (if ltb r (2 ^ bits) then r + 2 ^ bits else r - 2 ^ bits) (2 ^ bits)
          ≡ (if ltb r (2 ^ bits) then r else r + 2 ^ w - 2 ^ suc bits)
    extend r small = elim (Bool-cases (ltb r (2 ^ bits))) [
      | inl low ↦
          let back : r + 2 ^ bits + 2 ^ w - 2 ^ bits ≡ r + 2 ^ w = omega arith in
          rw (low, back, add-mod_right) (mod-eq_of_lt (omega (arith, pow_lt (suc bits) w h)))
      | inr high ↦
          let far = pow_lt (suc bits) w h in
          let back : r - 2 ^ bits + 2 ^ w - 2 ^ bits ≡ r + 2 ^ w - 2 ^ suc bits =
            ground (arith, pow-suc 2 bits) in
          rw (high, back) (mod-eq_of_lt (omega (arith, far)))
    ]
