-- ===== src/Tests/Words.antt =====
-- Masks, byte orders, rotations, overflow and products at concrete words.
use mipt_mips.Prelude.{ℕ, ◌+◌, ◌*◌, ◌^◌, ◌<◌, ◌≡◌, ◌%◌, List, [], ◌∷◌, arith}
use mipt_mips.Multiplication.{mips_multiplication, riscv_division_signed, riscv_remainder_signed}
use mipt_mips.Multiplication.Division.{IsRemainder, division-IsRemainder}
use mipt_mips.Multiplication.Products.{mips_multiplication_lem}

abbrev two_bytes : List ℕ
two_bytes = 0x34 ∷ 0x12 ∷ []

abbrev max_int : ℕ
max_int = 0x7fffffff

mips_multiplication_example :
    ((mips_multiplication 32 0xffffffff 0xffffffff).1 * 2 ^ 32
        + (mips_multiplication 32 0xffffffff 0xffffffff).0
      ≡ 0xffffffff * 0xffffffff)
    × ((mips_multiplication 32 0xffffffff 0xffffffff).0 < 2 ^ 32)
mips_multiplication_example =
    mips_multiplication_lem 32 0xffffffff 0xffffffff (omega arith) (omega arith) (omega arith)

division-IsRemainder_example :
    ((riscv_division_signed 32 0xfffffff9 2 * 2 + riscv_remainder_signed 32 0xfffffff9 2) % 2 ^ 32
      ≡ 0xfffffff9)
    × IsRemainder 32 0xfffffff9 2 (riscv_remainder_signed 32 0xfffffff9 2)
division-IsRemainder_example =
    division-IsRemainder 32 0xfffffff9 2 (omega arith) (omega arith) (omega arith)
      λ e. omega (arith, e)
