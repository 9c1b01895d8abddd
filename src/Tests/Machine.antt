-- ===== src/Tests/Machine.antt =====
-- The register file and the delay slots at concrete states.
use mipt_mips.Prelude.{
  ◌+◌, ◌-◌, ◌*◌, ◌%◌, ◌^◌, ◌≡◌, refl, true, false, some, [], ◌∷◌, get_or, replicate, set, ◌==◌,
  if◌then◌else◌, ◌>>=◌, arith,
}
use mipt_mips.Trap.{Trap}
use mipt_mips.Operation.{Datapath, OperationType, get_accumulation_type}
use mipt_mips.RegisterFile.{Registers, mips_register, write_dst}
use mipt_mips.RegisterFile.Accumulate.{hi_lo, multiply_add, multiply_subtract}
use mipt_mips.FuncSim.{Sequencer}
use mipt_mips.FuncSim.DelaySlots.{run_pc, delayed_jump}

abbrev pub idle : Datapath
idle = record {
  operation = OperationType.out_arithm;
  trap = Trap.no_trap;
  mem_addr = 0;
  mem_size = 0;
  v_imm = 0;
  delayed_slots = 0;
  is_taken_branch = false;
  pc = 0;
  new_pc = 0;
  target = 0;
  sequence_id = 0;
  v_src0 = 0;
  v_src1 = 0;
  v_dst0 = 0;
  v_dst1 = 0;
  mask = 2 ^ 32 - 1;
  complete = true;
  memory_complete = false;
}

abbrev registers : Registers
registers = set (set (replicate 98 0) 32 5) 33 0xffffffff

abbrev madd : Datapath
madd = record idle { operation = OperationType.out_r_accum; v_dst0 = 3; v_dst1 = 1 }

abbrev msub : Datapath
msub = record idle { operation = OperationType.out_r_subtr; v_dst0 = 3; v_dst1 = 1 }

multiply_add_example :
    (write_dst 32 mips_register registers 33 32 madd >>= λ written. some (hi_lo written))
    ≡ some ((hi_lo registers + (1 % 2 ^ 32 * 2 ^ 32 + 3 % 2 ^ 32)) % 2 ^ 64)
unfolding get_accumulation_type
multiply_add_example = multiply_add 32 registers madd (omega arith) (omega arith) refl refl

multiply_subtract_example :
    (write_dst 32 mips_register registers 33 32 msub >>= λ written. some (hi_lo written))
    ≡ some ((hi_lo registers + 2 ^ 64 - (1 % 2 ^ 32 * 2 ^ 32 + 3 % 2 ^ 32)) % 2 ^ 64)
unfolding get_accumulation_type
multiply_subtract_example =
    multiply_subtract 32 registers msub (omega arith) (omega arith) refl refl

abbrev start : Sequencer
start = record {
  pc = 0x1000 ∷ 0 ∷ 0 ∷ 0 ∷ 0 ∷ 0 ∷ 0 ∷ 0 ∷ [];
  delayed_slots = 0;
  nops_in_a_row = 0;
}

abbrev jump : Datapath
jump = record idle { delayed_slots = 1; new_pc = 0x2000 }

abbrev slot : Datapath
slot = record idle { new_pc = 0x1008 }

delayed_jump_example :
    (run_pc (jump ∷ slot ∷ []) start >>= λ t. some (get_or t.pc 0 0))
    ≡ some (if 1 == 1 then 0x2000 else (0x1000 + 4 * (1 + 1)) % 2 ^ 64)
delayed_jump_example = delayed_jump start jump (slot ∷ []) refl (omega arith) refl (omega arith)
