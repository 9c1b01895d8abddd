-- ===== src/Alu/Overflow.antt =====
-- Additions and subtractions that trap on signed overflow. The operands have `v` bits, the result
-- `t`.
use mipt_mips.Prelude.{ℕ, Bool, ◌&&◌, ◌||◌, if◌then◌else◌}
use mipt_mips.Prelude.Word.{narrow, add_word, sub_word}
use mipt_mips.Operation.{Datapath}
use mipt_mips.Trap.{Trap}
use mipt_mips.Alu.Primitives.{is_negative, is_positive}

unfoldable pub test_addition_overflow : ℕ → ℕ → ℕ → ℕ → ℕ × Bool
test_addition_overflow t v val1 val2 =
    let result = add_word t (narrow t val1) (narrow t val2) in
    (
      result,
      is_positive v val1 && is_positive v val2 && is_negative t result
          || is_negative v val1 && is_negative v val2 && is_positive t result,
    )

unfoldable pub test_subtraction_overflow : ℕ → ℕ → ℕ → ℕ → ℕ × Bool
test_subtraction_overflow t v val1 val2 =
    let result = sub_word t (narrow t val1) (narrow t val2) in
    (
      result,
      is_positive v val1 && is_negative v val2 && is_negative t result
          || is_negative v val1 && is_positive v val2 && is_positive t result,
    )

-- What the three operations do with a tested result.
unfoldable pub trap_or_write : ℕ × Bool → Datapath → Datapath
trap_or_write (result, overflow) instr =
    if overflow
    then record instr { trap = Trap.integer_overflow }
    else record instr { v_dst0 = result }

module _ (t w : ℕ) where
  unfoldable pub addition_overflow : Datapath → Datapath
  unfolding trap_or_write
  addition_overflow instr =
      trap_or_write (test_addition_overflow t w instr.v_src0 instr.v_src1) instr

  unfoldable pub addition_overflow_imm : Datapath → Datapath
  unfolding trap_or_write
  addition_overflow_imm instr =
      trap_or_write (test_addition_overflow t w instr.v_src0 instr.v_imm) instr

  unfoldable pub subtraction_overflow : Datapath → Datapath
  unfolding trap_or_write
  subtraction_overflow instr =
      trap_or_write (test_subtraction_overflow t w instr.v_src0 instr.v_src1) instr
