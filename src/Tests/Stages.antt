-- ===== src/Tests/Stages.antt =====
-- The stages of the pipeline at concrete instructions.
use mipt_mips.Prelude.{
  ℕ, ◌≡◌, refl, true, none, some, [], ◌∷◌, ◌>>=◌, leb, if◌then◌else◌, length, suc,
}
use mipt_mips.Operation.{Datapath, OperationType}
use mipt_mips.Alu.Branches.{branch}
use mipt_mips.Bpu.{get_bp_info}
use mipt_mips.Pipeline.{PerfInstr, is_set}
use mipt_mips.Pipeline.Execute.{BypassSource, Inputs, Outputs, clock}
use mipt_mips.Pipeline.LongUnit.{IsServed, IsQuiet}
use mipt_mips.Pipeline.Flushes.{run_cycles, clock-after_flush}
use mipt_mips.Pipeline.Prediction.{IsExecuted, next_address, next_address-get_bp_info}
use mipt_mips.Tests.Caches.{functions, four_ways}
use mipt_mips.Tests.Machine.{idle}
use mipt_mips.Tests.Timing.{two_bits, buffer, unit}

-- A branch at 0x48 that the unit has not seen.
abbrev fetched : Datapath
fetched = record idle {
  operation = OperationType.out_branch;
  pc = 0x48;
  new_pc = 0x4c;
  target = 0x100;
}

abbrev taken : PerfInstr
taken = record {
  func_instr = branch (λ d. true) fetched;
  src = 1 ∷ 2 ∷ [];
  dst = 0 ∷ 0 ∷ [];
  bp_data = get_bp_info functions four_ways two_bits buffer unit 0x48;
}

taken_pc : taken.func_instr.pc ≡ 0x48
unfolding branch
taken_pc = refl

next_address-get_bp_info_example : next_address taken ≡ taken.func_instr.new_pc
next_address-get_bp_info_example =
    next_address-get_bp_info functions four_ways two_bits buffer unit taken
      (IsExecuted.common (λ d. true) fetched refl refl) (rw taken_pc refl)

abbrev free : BypassSource
free = record { command = none; data_ports = [] }

abbrev bubble : Inputs
bubble = record {
  flush = none;
  trap = none;
  datapath = none;
  long_latency = none;
  source0 = free;
  source1 = free;
}

abbrev flushed : Inputs
flushed = record bubble { flush = some true }

abbrev out_of_unit : Inputs
out_of_unit = record bubble { long_latency = some taken }

bubble-IsQuiet : IsQuiet bubble
unfolding is_set IsServed
bubble-IsQuiet = record { quiet = refl; served0 = tt; served1 = tt }

out_of_unit-IsQuiet : IsQuiet out_of_unit
unfolding is_set IsServed
out_of_unit-IsQuiet = record { quiet = refl; served0 = tt; served1 = tt }

clock-after_flush_example :
    (latency' : ℕ) × (o0 : Outputs) × ((run_cycles (λ instr d. d) 2 0 (flushed ∷ bubble ∷ [])
        >>= λ s. clock (λ instr d. d) 2 s (record out_of_unit { long_latency = none }))
      ≡ some (latency', o0))
    × (o0.long_arithmetic_bypass ≡ none)
    × ((run_cycles (λ instr d. d) 2 0 (flushed ∷ bubble ∷ []) >>= λ s.
          clock (λ instr d. d) 2 s out_of_unit)
        ≡ some (
          latency',
          if leb 2 (suc (length (bubble ∷ [])))
              then record o0 {
                long_arithmetic_bypass = some (taken.func_instr.v_dst0, taken.func_instr.v_dst1);
                writeback_datapath = taken ∷ o0.writeback_datapath;
              }
              else o0,
        ))
unfolding is_set
clock-after_flush_example =
    clock-after_flush (λ instr d. d) 2 0 flushed out_of_unit (bubble ∷ []) taken refl
      (bubble-IsQuiet, tt) out_of_unit-IsQuiet refl
