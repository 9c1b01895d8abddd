-- ===== src/Prelude/Bits.antt =====
-- One equation for the lowest digit of each bitwise operation: the libraries define them by a
-- recursion on digits with fuel, which is dropped here.
use Prim.Native.Nat.{ℕ, zero, suc, ◌+◌, ◌*◌, ◌/◌, ◌%◌, ◌≤◌, min, max}
use Prim.Native.Nat.{differ, digits, bitwise, bit_and, bit_or, bit_xor}
use Prim.Native.Nat.{bit_and-bitwise, bit_or-bitwise, bit_xor-bitwise}
use mathlib.Core.Path.{◌≡◌, refl}
use native.Mathlib.Nat.{le_refl}
use native.Mathlib.Omega.{arith}

-- A digit function `op`, with `rest` for the digits of the second number that the first one lacks.
module _ (rest : ℕ → ℕ) (op : ℕ → ℕ → ℕ) where
  abbrev run : ℕ → ℕ → ℕ → ℕ
  run fuel x y = digits rest op fuel x y

  -- More fuel than the first number needs changes nothing.
  spare_fuel : (x y fuel other : ℕ) → x ≤ fuel → x ≤ other → run fuel x y ≡ run other x y
  spare_fuel zero y (suc fuel) (suc other) le le' = refl
  spare_fuel zero y (suc fuel) zero le le' = refl
  spare_fuel zero y zero (suc other) le le' = refl
  spare_fuel zero y zero zero le le' = refl
  spare_fuel (suc x) y zero other le le' = absurd (omega arith)
  spare_fuel (suc x) y (suc fuel) zero le le' = absurd (omega arith)
  spare_fuel (suc x) y (suc fuel) (suc other) le le' =
      let half : ℕ = suc x / 2 in
      let small : half ≤ fuel = omega arith in
      let small' : half ≤ other = omega arith in
      rw (spare_fuel half (y / 2) fuel other small small')

  abbrev value : ℕ → ℕ → ℕ
  value x y = bitwise rest op x y

  lowest : (x y : ℕ) → value (suc x) y ≡ op (suc x % 2) (y % 2) + 2 * value (suc x / 2) (y / 2)
  lowest x y =
      let half : ℕ = suc x / 2 in
      let enough : half ≤ x = omega arith in
      omega (spare_fuel half (y / 2) x half enough (le_refl half), arith)

-- The lowest digits, and the operation on the other ones.
pub bit_and_low : (a b : ℕ) → bit_and a b ≡ bit_and (a / 2) (b / 2) * 2 + min (a % 2) (b % 2)
bit_and_low zero y = simp bit_and-bitwise (omega arith)
bit_and_low (suc x) y =
    let step = lowest (λ _. 0) min x y in simp bit_and-bitwise (omega (arith, step))

pub bit_xor_low : (a b : ℕ) → bit_xor a b ≡ bit_xor (a / 2) (b / 2) * 2 + differ (a % 2) (b % 2)
bit_xor_low zero y = simp bit_xor-bitwise (omega arith)
bit_xor_low (suc x) y =
    let step = lowest (λ b. b) differ x y in simp bit_xor-bitwise (omega (arith, step))

pub bit_or_low : (a b : ℕ) → bit_or a b ≡ bit_or (a / 2) (b / 2) * 2 + max (a % 2) (b % 2)
bit_or_low zero y = simp bit_or-bitwise (omega arith)
bit_or_low (suc x) y =
    let step = lowest (λ b. b) max x y in simp bit_or-bitwise (omega (arith, step))
