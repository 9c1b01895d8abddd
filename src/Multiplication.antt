-- ===== src/Multiplication.antt =====
-- func_sim/multiplication.h, over words of `w` bits (32 or more, so that the operators of C++ do not
-- promote them).
pub mod Products
pub mod Signs
pub mod Division
use mipt_mips.Prelude.{
  ℕ, ◌+◌, ◌-◌, ◌*◌, ◌/◌, ◌%◌, ◌^◌, Bool, true, false, ◌&&◌, ◌==◌, if◌then◌else◌, bit_and,
}
use mipt_mips.Prelude.Word.{narrow, add_word, sub_word, not_word, shl, shr}
use mipt_mips.Macro.{all_ones, msb_set}
use mipt_mips.Operation.{Datapath}

-- The product of two words, in the register type.
abbrev pub mul_word : ℕ → ℕ → ℕ → ℕ
mul_word w x y = x * y % 2 ^ w

-- `mips_multiplication` of an unsigned type, with the halves of the product.
unfoldable pub mips_multiplication : ℕ → ℕ → ℕ → ℕ × ℕ
mips_multiplication w x y =
    let value = mul_word (2 * w) x y in
    (narrow w (bit_and value (all_ones w)), narrow w (shr value w))

-- `mips_division` of an unsigned type.
unfoldable pub mips_division : ℕ → ℕ → ℕ → ℕ × ℕ
mips_division w x y = if y == 0 then (0, 0) else (x / y, x % y)

unfoldable pub riscv_multiplication_low : ℕ → ℕ → ℕ → ℕ
riscv_multiplication_low w x y = narrow w (bit_and (mul_word w x y) (all_ones w))

-- The product of the halves of the words, for a width of `2 * h` bits.
unfoldable pub riscv_multiplication_high_uu : ℕ → ℕ → ℕ → ℕ
riscv_multiplication_high_uu h x y =
    let w = 2 * h in
    let half_mask = narrow w (shr (all_ones w) h) in
    let x1 = shr x h in
    let x0 = bit_and x half_mask in
    let y1 = shr y h in
    let y0 = bit_and y half_mask in
    let low_part =
      shr
        (add_word w (add_word w (shr (mul_word w x0 y0) h) (bit_and (mul_word w x0 y1) half_mask))
          (bit_and (mul_word w x1 y0) half_mask))
        h in
    let high_part =
      add_word w (add_word w (mul_word w x1 y1) (shr (mul_word w x0 y1) h))
        (shr (mul_word w x1 y0) h) in
    add_word w high_part low_part

-- `~( x - 1)` where the sign is set.
unfoldable pub magnitude : ℕ → ℕ → ℕ
magnitude w x = if shr x (w - 1) == 0 then x else not_word w (sub_word w x 1)

-- The high word of a product, negated where the sign of the product says so.
unfoldable pub negate_high : ℕ → Bool → ℕ → ℕ → ℕ
negate_high w is_neg hi_abs lo_abs =
    if is_neg
    then (if lo_abs == 0 then add_word w (not_word w hi_abs) 1 else not_word w hi_abs)
    else hi_abs

unfoldable pub riscv_multiplication_high_ss : ℕ → ℕ → ℕ → ℕ
unfolding magnitude negate_high
riscv_multiplication_high_ss h x y =
    let w = 2 * h in
    let hi_abs = riscv_multiplication_high_uu h (magnitude w x) (magnitude w y) in
    let lo_abs = riscv_multiplication_low w (magnitude w x) (magnitude w y) in
    let same_sign = shr x (w - 1) == shr y (w - 1) in
    negate_high w (if same_sign then false else true) hi_abs lo_abs

unfoldable pub riscv_multiplication_high_su : ℕ → ℕ → ℕ → ℕ
unfolding magnitude negate_high
riscv_multiplication_high_su h x y =
    let w = 2 * h in
    let hi_abs = riscv_multiplication_high_uu h (magnitude w x) y in
    let lo_abs = riscv_multiplication_low w (magnitude w x) y in
    negate_high w (if shr x (w - 1) == 0 then false else true) hi_abs lo_abs

-- `riscv_division` and `riscv_remainder` of an unsigned type.
unfoldable pub riscv_division : ℕ → ℕ → ℕ → ℕ
riscv_division w x y = if y == 0 then all_ones w else x / y

unfoldable pub riscv_remainder : ℕ → ℕ → ℕ → ℕ
riscv_remainder w x y = if y == 0 then x else x % y

unfoldable pub is_signed_division_overflow : ℕ → ℕ → ℕ → Bool
unfolding msb_set
is_signed_division_overflow w x y = y == all_ones w && x == msb_set w

-- The quotient of C++ rounds to zero; the words stand for signed numbers.
unfoldable pub signed_quotient : ℕ → ℕ → ℕ → ℕ
unfolding magnitude
signed_quotient w x y =
    let quotient = magnitude w x / magnitude w y in
    if shr x (w - 1) == shr y (w - 1) then quotient else sub_word w 0 quotient

-- The remainder of C++ has the sign of the dividend.
unfoldable pub signed_remainder : ℕ → ℕ → ℕ → ℕ
unfolding magnitude
signed_remainder w x y =
    let remainder = magnitude w x % magnitude w y in
    if shr x (w - 1) == 0 then remainder else sub_word w 0 remainder

-- `riscv_division` and `riscv_remainder` of a signed type.
unfoldable pub riscv_division_signed : ℕ → ℕ → ℕ → ℕ
unfolding msb_set is_signed_division_overflow signed_quotient
riscv_division_signed w x y =
    if y == 0
    then all_ones w
    else (if is_signed_division_overflow w x y then msb_set w else signed_quotient w x y)

unfoldable pub riscv_remainder_signed : ℕ → ℕ → ℕ → ℕ
unfolding is_signed_division_overflow signed_remainder
riscv_remainder_signed w x y =
    if y == 0 then x else (if is_signed_division_overflow w x y then 0 else signed_remainder w x y)

-- The executors of `RISCVMultALU` and `MIPSMultALU`, for a type of `t` bits.
unfoldable pub mult_h_uu : ℕ → Datapath → Datapath
mult_h_uu h instr = record instr {
  v_dst0 = riscv_multiplication_high_uu h instr.v_src0 instr.v_src1;
}

unfoldable pub mult_h_ss : ℕ → Datapath → Datapath
mult_h_ss h instr = record instr {
  v_dst0 = riscv_multiplication_high_ss h instr.v_src0 instr.v_src1;
}

unfoldable pub mult_h_su : ℕ → Datapath → Datapath
mult_h_su h instr = record instr {
  v_dst0 = riscv_multiplication_high_su h instr.v_src0 instr.v_src1;
}

unfoldable pub mult_l : ℕ → Datapath → Datapath
mult_l t instr = record instr {
  v_dst0 = riscv_multiplication_low t (narrow t instr.v_src0) (narrow t instr.v_src1);
}

unfoldable pub div : ℕ → Datapath → Datapath
div t instr = record instr {
  v_dst0 = riscv_division t (narrow t instr.v_src0) (narrow t instr.v_src1);
}

unfoldable pub rem : ℕ → Datapath → Datapath
rem t instr = record instr {
  v_dst0 = riscv_remainder t (narrow t instr.v_src0) (narrow t instr.v_src1);
}

unfoldable pub div_signed : ℕ → Datapath → Datapath
unfolding riscv_division_signed
div_signed t instr = record instr {
  v_dst0 = riscv_division_signed t (narrow t instr.v_src0) (narrow t instr.v_src1);
}

unfoldable pub rem_signed : ℕ → Datapath → Datapath
unfolding riscv_remainder_signed
rem_signed t instr = record instr {
  v_dst0 = riscv_remainder_signed t (narrow t instr.v_src0) (narrow t instr.v_src1);
}

unfoldable pub multiplication : ℕ → Datapath → Datapath
multiplication t instr =
    let result = mips_multiplication t (narrow t instr.v_src0) (narrow t instr.v_src1) in
    record instr { v_dst0 = result.0; v_dst1 = result.1 }

unfoldable pub division : ℕ → Datapath → Datapath
division t instr =
    let result = mips_division t (narrow t instr.v_src0) (narrow t instr.v_src1) in
    record instr { v_dst0 = result.0; v_dst1 = result.1 }
