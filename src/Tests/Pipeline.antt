-- ===== src/Tests/Pipeline.antt =====
-- The scoreboard of the decode stage at concrete inputs: a unit of three registers and a long unit
-- of latency 3.
use mipt_mips.Prelude.{◌≤◌, ◌<◌, ◌≡◌, refl, true, false, some, [], ◌∷◌, ◌==◌, leb, arith}
use mipt_mips.Operation.{OperationType}
use mipt_mips.RegisterFile.{RegisterClass}
use mipt_mips.Bypass.{
  RegisterInfo, new_info, get_instruction_latency, trace_new_dst_register, trace_new_dst2_register,
  next_stage,
}
use mipt_mips.Bypass.Stages.{updates, stage_at, ready_time}
use mipt_mips.Bypass.Courses.{updates-dst, is_bypassible-dst, is_bypassible-dst2}
use mipt_mips.Bypass.Unit.{Instr, DataBypass, new_bypass, trace_new_instr, set_bandwidth, is_stall}
use mipt_mips.Bypass.Scoreboard.{IsCoherent, Call, Reach, Reach-IsCoherent}
use mipt_mips.Bypass.Drain.{cycles, cycles_lem, stall_ends}

abbrev multiply : OperationType
multiply = OperationType.out_divmult

abbrev traced_multiply : RegisterInfo
traced_multiply = trace_new_dst_register 3 multiply new_info

updates-dst_example :
    (2 ≤ get_instruction_latency 3 multiply
      → (updates 3 2 traced_multiply).current_stage.value
        ≡ stage_at 3
            (get_instruction_latency 3 multiply)
            (next_stage multiply new_info.next_stage_after_first_execution_stage).value
            2)
    × (get_instruction_latency 3 multiply < 2 → updates 3 2 traced_multiply ≡ new_info)
updates-dst_example = updates-dst 3 (omega arith) (omega arith) multiply new_info 2

is_bypassible-dst_example :
    (updates 3 1 (trace_new_dst_register 3 OperationType.out_load new_info)).is_bypassible
    ≡ leb (ready_time 3 OperationType.out_load) 1
unfolding get_instruction_latency
is_bypassible-dst_example =
    is_bypassible-dst 3 (omega arith) (omega arith) OperationType.out_load new_info 1 (ground arith)

-- The register of an instruction that can be bypassed and is still on its way.
abbrev moved_to_high : RegisterInfo
moved_to_high = trace_new_dst_register 3 OperationType.out_arithm new_info

is_bypassible-dst2_example :
    (updates 3 0 (trace_new_dst2_register 3 multiply moved_to_high)).is_bypassible
    ≡ moved_to_high.is_bypassible
unfolding get_instruction_latency
is_bypassible-dst2_example =
    is_bypassible-dst2 3 (omega arith) (omega arith) multiply moved_to_high 0 (omega arith)

-- So it counts as bypassible although the new value cannot be bypassed.
stale_flag : (trace_new_dst2_register 3 multiply moved_to_high).is_bypassible ≡ true
unfolding trace_new_dst_register trace_new_dst2_register
stale_flag = refl

abbrev three_registers : RegisterClass
three_registers = record {
  max_reg = 3;
  is_zero = λ r. r == 0;
  is_mips_lo = λ r. false;
  mips_hi = 2;
}

abbrev multiply_instr : Instr
multiply_instr = record { operation = multiply; src = 1 ∷ 2 ∷ []; dst = 1 ∷ 2 ∷ [] }

abbrev busy : DataBypass
busy = record {
  scoreboard = new_info ∷ traced_multiply ∷ trace_new_dst2_register 3 multiply new_info ∷ [];
  operation_latency = get_instruction_latency 3 multiply;
  writeback_bandwidth = 1;
}

busy-Reach : Reach 3 three_registers busy
unfolding trace_new_instr new_bypass
busy-Reach = Reach.called Reach.created (Call.traced multiply_instr refl)

Reach-IsCoherent_example : IsCoherent 3 three_registers busy
Reach-IsCoherent_example = Reach-IsCoherent 3 three_registers (omega arith) (omega arith) busy-Reach

cycles_lem_example : cycles 3 4 busy ≡ set_bandwidth (new_bypass three_registers) 1
cycles_lem_example = cycles_lem 3 (omega arith) (omega arith) three_registers busy busy-Reach

stall_ends_example : is_stall 3 (cycles 3 4 busy) multiply_instr ≡ some false
stall_ends_example =
    stall_ends 3 (omega arith) (omega arith) three_registers busy multiply_instr 1 2 [] busy-Reach
      refl (omega arith) (omega arith)
