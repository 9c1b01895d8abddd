-- ===== src/Prelude/Digits.antt =====
-- The binary digits of a word. A bitwise equation is proved digit by digit: `testbit` of each
-- operation is known at every position, and words with the same digits are equal.
use Prim.Native.Nat.{ℕ, zero, suc, ◌+◌, ◌-◌, ◌*◌, ◌/◌, ◌%◌, ◌^◌, ◌≤◌, ◌<◌, differ}
use Prim.Native.Nat.{bit_and, bit_or, bit_xor}
use mathlib.Core.Path.{◌≡◌, refl, sym, ◌∙◌, ap}
use mathlib.Core.Bool.{Bool, true, false, not, ◌&&◌, ◌||◌}
use native.Mathlib.Nat.{
  pow-suc, pow-succ', one-le-pow, div-one, mul-one, mod-one, div-div-eq-div-mul, add-zero, add-suc,
  mod-lt, mod-eq_of_lt, div-add-mod, add-mul-mod_self_left, sub-zero,
}
use native.Mathlib.Omega.{arith}
use mipt_mips.Prelude.Tests.{ltb, ◌==◌, if◌then◌else◌}
use mipt_mips.Prelude.Bits.{bit_and_low, bit_or_low, bit_xor_low}

-- Digit `i` of `a`, the lowest at 0.
unfoldable pub testbit : ℕ → ℕ → Bool
testbit a zero = a % 2 == 1
testbit a (suc i) = testbit (a / 2) i

abbrev pub differs : Bool → Bool → Bool
differs true b = not b
differs false b = b

pub testbit-zero : (i : ℕ) → testbit 0 i ≡ false
unfolding testbit
testbit-zero zero = refl
testbit-zero (suc i) = testbit-zero i

half_and : (a b : ℕ) → bit_and a b / 2 ≡ bit_and (a / 2) (b / 2)
half_and a b = omega (arith, bit_and_low a b)

half_or : (a b : ℕ) → bit_or a b / 2 ≡ bit_or (a / 2) (b / 2)
half_or a b = omega (arith, bit_or_low a b)

differ_table : (x y : ℕ) → x < 2 → y < 2 → (differ x y ≡ (x + y) % 2) × (differ x y < 2)
differ_table zero y p q = omega arith
differ_table (suc zero) zero p q = omega arith
differ_table (suc zero) (suc zero) p q = omega arith
differ_table (suc zero) (suc (suc y)) p q = absurd (omega arith)
differ_table (suc (suc x)) y p q = absurd (omega arith)

half_xor : (a b : ℕ) → bit_xor a b / 2 ≡ bit_xor (a / 2) (b / 2)
half_xor a b =
    omega (arith, bit_xor_low a b, differ_table (a % 2) (b % 2) (omega arith) (omega arith))

parity_xor : (a b : ℕ) → bit_xor a b % 2 ≡ (a % 2 + b % 2) % 2
parity_xor a b =
    omega (arith, bit_xor_low a b, differ_table (a % 2) (b % 2) (omega arith) (omega arith))

pub testbit-and : (a b i : ℕ) → testbit (bit_and a b) i ≡ (testbit a i && testbit b i)
unfolding testbit
testbit-and a b zero = ground (arith, bit_and_low a b)
testbit-and a b (suc i) = rw (half_and a b) (testbit-and (a / 2) (b / 2) i)

pub testbit-or : (a b i : ℕ) → testbit (bit_or a b) i ≡ (testbit a i || testbit b i)
unfolding testbit
testbit-or a b zero = ground (arith, bit_or_low a b)
testbit-or a b (suc i) = rw (half_or a b) (testbit-or (a / 2) (b / 2) i)

pub testbit-xor : (a b i : ℕ) → testbit (bit_xor a b) i ≡ differs (testbit a i) (testbit b i)
unfolding testbit
testbit-xor a b zero = ground (arith, parity_xor a b)
testbit-xor a b (suc i) = rw (half_xor a b) (testbit-xor (a / 2) (b / 2) i)

-- Words with the same digits are equal.
ext_below : (n a b : ℕ) → a ≤ n → b ≤ n → ((i : ℕ) → testbit a i ≡ testbit b i) → a ≡ b
unfolding testbit
ext_below zero a b p q h = omega arith
ext_below (suc n) a b p q h =
    let halves = ext_below n (a / 2) (b / 2) (omega arith) (omega arith) (λ i. h (suc i)) in
    ground (arith, h 0, halves)

pub testbit_ext : (a b : ℕ) → ((i : ℕ) → testbit a i ≡ testbit b i) → a ≡ b
testbit_ext a b h = ext_below (a + b) a b (omega arith) (omega arith) h

pub pow_pos : (k : ℕ) → 0 < 2 ^ k
pow_pos k = one-le-pow k 2 (omega arith)

-- `2 ^ suc k` at a factor: products with it are multiples of two.
pub mul-pow-suc : (a k : ℕ) → a * 2 ^ suc k ≡ 2 * (a * 2 ^ k)
mul-pow-suc a k = omega (arith, ap (λ (t : ℕ). a * t) (pow-suc 2 k))

pub div-pow-suc : (a k : ℕ) → a / 2 ^ suc k ≡ a / 2 / 2 ^ k
div-pow-suc a k = ap (λ (t : ℕ). a / t) (pow-succ' 2 k) ∙ sym (div-div-eq-div-mul a 2 (2 ^ k))

pub mod-pow-suc : (a k : ℕ) → a % 2 ^ suc k ≡ a / 2 % 2 ^ k * 2 + a % 2
mod-pow-suc a k =
    let s : ℕ = a / 2 % 2 ^ k * 2 + a % 2 in
    let small : s < 2 ^ suc k = omega (arith, mod-lt (a / 2) (pow_pos k), pow-suc 2 k) in
    let q : ℕ = a / 2 / 2 ^ k in
    let e : s + 2 ^ suc k * q ≡ a =
      omega (arith, div-add-mod (a / 2) (2 ^ k), ap (λ (t : ℕ). t * q) (pow-suc 2 k)) in
    ap (λ (t : ℕ). t % 2 ^ suc k) (sym e)
    ∙ add-mul-mod_self_left s (2 ^ suc k) q
    ∙ mod-eq_of_lt small

-- Shifts and truncation.
pub testbit-shr : (a k i : ℕ) → testbit (a / 2 ^ k) i ≡ testbit a (i + k)
unfolding testbit
testbit-shr a zero i = rw (div-one, add-zero)
testbit-shr a (suc k) i = rw (div-pow-suc, add-suc) (testbit-shr (a / 2) k i)

pub testbit-shl :
    (a k i : ℕ) → testbit (a * 2 ^ k) i ≡ (if ltb i k then false else testbit a (i - k))
unfolding testbit
testbit-shl a zero i = rw (mul-one, sub-zero) (ground arith)
testbit-shl a (suc k) zero = ground (arith, mul-pow-suc a k)
testbit-shl a (suc k) (suc i) =
    let e : a * 2 ^ suc k / 2 ≡ a * 2 ^ k = omega (arith, mul-pow-suc a k) in
    rw e (ground (arith, testbit-shl a k i))

pub testbit-mod : (a k i : ℕ) → testbit (a % 2 ^ k) i ≡ (if ltb i k then testbit a i else false)
unfolding testbit
testbit-mod a zero i = rw mod-one (ground (arith, testbit-zero i))
testbit-mod a (suc k) zero = ground (arith, mod-pow-suc a k)
testbit-mod a (suc k) (suc i) =
    let e : a % 2 ^ suc k / 2 ≡ a / 2 % 2 ^ k = omega (arith, mod-pow-suc a k) in
    rw e (ground (arith, testbit-mod (a / 2) k i))

-- Above its width a word has no digit.
pub testbit_above : (a w i : ℕ) → a < 2 ^ w → w ≤ i → testbit a i ≡ false
testbit_above a w i small above =
    let e : a % 2 ^ w ≡ a = mod-eq_of_lt small in
    ap (λ t. testbit t i) (sym e) ∙ testbit-mod a w i ∙ ground arith

-- A mask of `k` low ones.
pub testbit-ones : (k i : ℕ) → testbit (2 ^ k - 1) i ≡ ltb i k
unfolding testbit
testbit-ones zero i = ground (arith, testbit-zero i)
testbit-ones (suc k) zero = ground (arith, pow-suc 2 k, pow_pos k)
testbit-ones (suc k) (suc i) =
    let e : (2 ^ suc k - 1) / 2 ≡ 2 ^ k - 1 = omega (arith, pow-suc 2 k, pow_pos k) in
    rw e (ground (arith, testbit-ones k i))

pub testbit-pow : (k i : ℕ) → testbit (2 ^ k) i ≡ (i == k)
unfolding testbit
testbit-pow zero zero = refl
testbit-pow zero (suc i) = ground (arith, testbit-zero i)
testbit-pow (suc k) zero = ground (arith, pow-suc 2 k)
testbit-pow (suc k) (suc i) =
    let e : 2 ^ suc k / 2 ≡ 2 ^ k = omega (arith, pow-suc 2 k) in
    rw e (ground (arith, testbit-pow k i))

-- The mask of low digits is a remainder.
pub bit_and_ones : (k a : ℕ) → bit_and a (2 ^ k - 1) ≡ a % 2 ^ k
bit_and_ones k a =
    testbit_ext _ _
      λ i. ground (arith, testbit-and a (2 ^ k - 1) i, testbit-ones k i, testbit-mod a k i)

pub bit_and_comm : (a b : ℕ) → bit_and a b ≡ bit_and b a
bit_and_comm a b = testbit_ext _ _ λ i. ground (arith, testbit-and a b i, testbit-and b a i)

pub bit_or_comm : (a b : ℕ) → bit_or a b ≡ bit_or b a
bit_or_comm a b = testbit_ext _ _ λ i. ground (arith, testbit-or a b i, testbit-or b a i)

pub zero-bit_or : (a : ℕ) → bit_or 0 a ≡ a
zero-bit_or a = testbit_ext _ _ λ i. ground (arith, testbit-or 0 a i, testbit-zero i)

-- The sum of fields that share no digit.
pub bit_or_fields : (k q r : ℕ) → r < 2 ^ k → bit_or (q * 2 ^ k) r ≡ q * 2 ^ k + r
bit_or_fields zero q r small = ground (arith, bit_or_comm q 0, zero-bit_or q)
bit_or_fields (suc k) q r small = ground (
  arith,
  bit_or_low (q * 2 ^ suc k) r,
  mul-pow-suc q k,
  bit_or_fields k q (r / 2) (omega (arith, pow-suc 2 k)),
)

-- Flipping the top digit of a word.
pub bit_xor_top :
    (k a : ℕ) → a < 2 ^ suc k → bit_xor a (2 ^ k) ≡ (if ltb a (2 ^ k) then a + 2 ^ k else a - 2 ^ k)
bit_xor_top zero zero small = refl
bit_xor_top zero (suc zero) small = refl
bit_xor_top zero (suc (suc a)) small = absurd (omega arith)
bit_xor_top (suc k) a small =
    let halves = bit_xor_top k (a / 2) (omega (arith, pow-suc 2 (suc k))) in
    let p = pow-suc 2 k in
    let e : 2 ^ suc k / 2 ≡ 2 ^ k = omega arith in
    let step : bit_xor a (2 ^ suc k) ≡ bit_xor (a / 2) (2 ^ k) * 2 + a % 2 = omega (
      arith,
      bit_xor_low a (2 ^ suc k),
      ap (bit_xor (a / 2)) e,
      differ_table (a % 2) (2 ^ suc k % 2) (omega arith) (omega arith),
    ) in
    ground (arith, halves, step)

-- The complement of a word of `w` digits.
pub testbit-not :
    (w a i : ℕ)
    → a < 2 ^ w
    → testbit (2 ^ w - 1 - a) i ≡ (if ltb i w then not (testbit a i) else false)
unfolding testbit
testbit-not zero a i small = ground (arith, testbit-zero i)
testbit-not (suc w) a zero small = ground (arith, pow-suc 2 w, pow_pos w)
testbit-not (suc w) a (suc i) small =
    let e : (2 ^ suc w - 1 - a) / 2 ≡ 2 ^ w - 1 - a / 2 = omega (arith, pow-suc 2 w, pow_pos w) in
    rw e (ground (arith, testbit-not w (a / 2) i (omega (arith, pow-suc 2 w))))

-- A number with no digit from `w` on is a word of `w` bits.
pub lt_of_testbit : (w a : ℕ) → ((i : ℕ) → w ≤ i → testbit a i ≡ false) → a < 2 ^ w
lt_of_testbit w a h =
    let e : a % 2 ^ w ≡ a = testbit_ext _ _ λ i. ground (arith, testbit-mod a w i, h i) in
    omega (arith, mod-lt a (pow_pos w), e)
