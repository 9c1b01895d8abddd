-- ===== src/Alu/Primitives.antt =====
-- alu_primitives.h: shifts, rotations, signs and bit permutations of a word of `w` bits. The bit
-- functions of the standard header <bit> are written out over the digits of the word.
use mipt_mips.Prelude.{
  ℕ, zero, suc, ◌+◌, ◌-◌, ◌/◌, ◌%◌, ◌^◌, Bool, not, ◌&&◌, ◌==◌, if◌then◌else◌, bit_and, bit_or,
}
use mipt_mips.Prelude.Word.{not_word, shl, shr}
use mipt_mips.Prelude.Digits.{testbit}
use mipt_mips.Macro.{msb_set, ones_rs}

-- `std::popcount` over the lowest `w` digits.
unfoldable pub popcount : ℕ → ℕ → ℕ
popcount zero x = 0
popcount (suc w) x = x % 2 + popcount w (x / 2)

-- `std::countl_zero`
unfoldable pub count_leading_zeroes : ℕ → ℕ → ℕ
count_leading_zeroes zero x = 0
count_leading_zeroes (suc w) x = if testbit x w then 0 else suc (count_leading_zeroes w x)

-- `std::countl_one`
unfoldable pub count_leading_ones : ℕ → ℕ → ℕ
count_leading_ones zero x = 0
count_leading_ones (suc w) x = if testbit x w then suc (count_leading_ones w x) else 0

-- `std::countr_zero`
unfoldable pub count_trailing_zeroes : ℕ → ℕ → ℕ
count_trailing_zeroes zero x = 0
count_trailing_zeroes (suc w) x = if x % 2 == 1 then 0 else suc (count_trailing_zeroes w (x / 2))

-- `std::rotl` and `std::rotr`, which take the count modulo the width.
unfoldable pub circ_ls : ℕ → ℕ → ℕ → ℕ
circ_ls w x shamt = let r = shamt % w in if r == 0 then x else bit_or (shl w x r) (shr x (w - r))

unfoldable pub circ_rs : ℕ → ℕ → ℕ → ℕ
circ_rs w x shamt = let r = shamt % w in if r == 0 then x else bit_or (shr x r) (shl w x (w - r))

-- `is_negative` and `is_positive`
unfoldable pub is_negative : ℕ → ℕ → Bool
is_negative w value = not (bit_and value (msb_set w) == 0)

unfoldable pub is_positive : ℕ → ℕ → Bool
unfolding is_negative
is_positive w value = not (is_negative w value) && not (value == 0)

-- The branch of `arithmetic_rs` for a type with no signed partner; the other one is the signed
-- shift of the compiler, which the source tests to be arithmetic.
unfoldable pub arithmetic_rs : ℕ → ℕ → ℕ → ℕ
arithmetic_rs w value shamt =
    if bit_and value (msb_set w) == 0 then shr value shamt else ones_rs w value shamt

-- The loop of `interleaved_mask`, from digit `i` on with `left` digits to go.
unfoldable pub interleaved_from : ℕ → ℕ → ℕ → ℕ → ℕ → ℕ
interleaved_from w density zero i result = result
interleaved_from w density (suc left) i result =
    interleaved_from w density left (i + 1)
      (if shr i density % 2 == 0 then bit_or result (shl w 1 i) else result)

unfoldable pub interleaved_mask : ℕ → ℕ → ℕ
unfolding interleaved_from
interleaved_mask w density = interleaved_from w density w 0 0

-- The loop of `shuffle_mask`.
unfoldable pub shuffle_from : ℕ → ℕ → ℕ → ℕ → ℕ → ℕ → ℕ
shuffle_from w shift density zero i result = result
shuffle_from w shift density (suc left) i result =
    shuffle_from w shift density left (i + 1)
      (if shr i density % 4 == shift then bit_or result (shl w 1 i) else result)

unfoldable pub shuffle_mask : ℕ → ℕ → ℕ → ℕ
unfolding shuffle_from
shuffle_mask w shift density = shuffle_from w shift density w 0 0

-- A round of `gen_reverse`: neighbouring groups of `2 ^ i` digits change places.
unfoldable pub swap_groups : ℕ → ℕ → ℕ → ℕ
swap_groups w i value =
    bit_or (shl w (bit_and value (interleaved_mask w i)) (2 ^ i))
      (shr (bit_and value (not_word w (interleaved_mask w i))) (2 ^ i))

-- The loop of `gen_reverse`, with `left` rounds to go.
unfoldable pub gen_reverse_from : ℕ → ℕ → ℕ → ℕ → ℕ → ℕ
gen_reverse_from w shamt zero i value = value
gen_reverse_from w shamt (suc left) i value =
    gen_reverse_from w shamt left (i + 1)
      (if bit_and shamt (2 ^ i) == 0 then value else swap_groups w i value)

-- `log_w` is `log_bitwidth<T>`.
unfoldable pub gen_reverse : ℕ → ℕ → ℕ → ℕ → ℕ
unfolding gen_reverse_from
gen_reverse w log_w value shamt = gen_reverse_from w shamt log_w 0 value

unfoldable pub gen_or_combine_from : ℕ → ℕ → ℕ → ℕ → ℕ → ℕ
gen_or_combine_from w shamt zero i value = value
gen_or_combine_from w shamt (suc left) i value =
    gen_or_combine_from w shamt left (i + 1)
      (if bit_and shamt (2 ^ i) == 0 then value else bit_or value (swap_groups w i value))

unfoldable pub gen_or_combine : ℕ → ℕ → ℕ → ℕ → ℕ
unfolding gen_or_combine_from
gen_or_combine w log_w value shamt = gen_or_combine_from w shamt log_w 0 value
