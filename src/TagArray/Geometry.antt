-- ===== src/TagArray/Geometry.antt =====
-- `CacheTagArraySizeCheck` and `CacheTagArraySize`: the set and the tag of an address.
use mipt_mips.Prelude.{
  ℕ, ◌+◌, ◌-◌, ◌*◌, ◌/◌, ◌%◌, ◌^◌, ◌≡◌, ◌↔◌, sym, ap, ◌∙◌, Bool, not, ◌||◌, Option, none, some, ltb,
  ◌==◌, if◌then◌else◌, bit_and, arith,
}
use mipt_mips.Prelude.Word.{shr, countr_zero}
use mipt_mips.Prelude.Digits.{bit_and_ones, testbit_ext, testbit-shr}
use native.Mathlib.Nat.{div-add-mod'}
use mipt_mips.Macro.{bitmask}
use mipt_mips.Replacement.PseudoLru.{is_power_of_two}

pub record Geometry : Type 0 where
  pub line_bits : ℕ
  pub sets : ℕ
  pub set_bits : ℕ
  pub addr_mask : ℕ

-- The conditions of the exceptions, in their order.
unfoldable pub bad_size : ℕ → ℕ → ℕ → ℕ → Bool
bad_size size_in_bytes ways line_size addr_size_in_bits =
    size_in_bytes == 0
    || ways == 0
    || line_size == 0
    || addr_size_in_bits == 0
    || ltb 32 addr_size_in_bits
    || ltb size_in_bytes (ways * line_size % 2 ^ 32)
    || not (is_power_of_two size_in_bytes)
    || not (is_power_of_two line_size)
    || not (size_in_bytes % (line_size * ways % 2 ^ 32) == 0)

-- `none` is `CacheTagArrayInvalidSizeException`.
unfoldable pub create : ℕ → ℕ → ℕ → ℕ → Option Geometry
unfolding bad_size countr_zero
create size_in_bytes ways line_size addr_size_in_bits =
    let line_bits = countr_zero 32 line_size in
    let sets = size_in_bytes / (ways * line_size % 2 ^ 32) in
    if bad_size size_in_bytes ways line_size addr_size_in_bits
    then none
    else some (record {
      line_bits = line_bits;
      sets = sets;
      set_bits = countr_zero 32 sets + line_bits;
      addr_mask = bitmask 64 addr_size_in_bits;
    })

unfoldable pub set : Geometry → ℕ → ℕ
set g addr = bit_and (shr (bit_and addr g.addr_mask) g.line_bits) (g.sets - 1)

unfoldable pub tag : Geometry → ℕ → ℕ
tag g addr = shr (bit_and addr g.addr_mask) g.set_bits

-- With a power of two as the number of sets, two addresses have the same set and the same tag
-- exactly when they lie on the same line, the bits above the address size aside.
pub same_line_iff :
    (g : Geometry) (k a b : ℕ)
    → g.sets ≡ 2 ^ k
    → g.set_bits ≡ k + g.line_bits
    → ((set g a ≡ set g b) × (tag g a ≡ tag g b))
      ↔ (bit_and a g.addr_mask / 2 ^ g.line_bits ≡ bit_and b g.addr_mask / 2 ^ g.line_bits)
unfolding set tag
same_line_iff g k a b power bits =
    let x : ℕ = bit_and a g.addr_mask in
    let y : ℕ = bit_and b g.addr_mask in
    let l : ℕ = 2 ^ g.line_bits in
    let split : (z : ℕ) → z / 2 ^ (k + g.line_bits) ≡ z / l / 2 ^ k = λ z. testbit_ext _ _ λ i.
      ground (
        arith,
        testbit-shr z (k + g.line_bits) i,
        testbit-shr (z / l) k i,
        testbit-shr z g.line_bits (i + k),
      ) in
    rw (power, bits, bit_and_ones k (x / l), bit_and_ones k (y / l), split x, split y)
      (
        (λ e. sym (div-add-mod' (x / l) (2 ^ k)) ∙ rw (e.0, e.1) (div-add-mod' (y / l) (2 ^ k))),
        (λ e. (ap (λ (t : ℕ). t % 2 ^ k) e, ap (λ (t : ℕ). t / 2 ^ k) e)),
      )
