-- ===== src/Tests/Predictors.antt =====
-- The branch predictors and the formats of traps at concrete inputs.
use mipt_mips.Prelude.{ℕ, ◌≡◌, Bool, true, false, some, List, [], ◌∷◌, arith}
use mipt_mips.BranchPredictor.{two_bit_is_taken, Adaptive, adaptive_is_taken}
use mipt_mips.BranchPredictor.History.{recent, counted, after, adaptive_prediction}
use mipt_mips.Trap.{Trap, Entry, RiscvCauses, converter, convert_to}
use mipt_mips.Trap.Formats.{convert_to_total}

abbrev outcomes : List Bool
outcomes = true ∷ false ∷ true ∷ true ∷ []

adaptive_prediction_example :
    (e : Adaptive) × (after 2 outcomes ≡ some e)
    × (adaptive_is_taken 2 e ≡ some (two_bit_is_taken (counted 2 (recent 2 outcomes) outcomes)))
adaptive_prediction_example = adaptive_prediction 2 (omega arith) (omega arith) outcomes

abbrev pub causes : RiscvCauses
causes = record {
  breakpoint = 3;
  user_ecall = 8;
  illegal_instruction = 2;
  misaligned_load = 4;
  misaligned_store = 6;
  misaligned_fetch = 0;
}

abbrev mips_number : Entry → ℕ
mips_number e = e.mips

abbrev halt_entry : Entry
halt_entry = record { trap = Trap.halt; gdb = 0; riscv = 0x10; mips = 0 }

convert_to_example : (n : ℕ) × (convert_to mips_number Trap.syscall (converter causes) ≡ some n)
convert_to_example = convert_to_total causes mips_number Trap.syscall (λ e. ground arith)
