-- ===== src/Operation.antt =====
-- func_sim/operation.h: an instruction in flight. The registers are words of `w` bits, addresses
-- of 64.
use mipt_mips.Prelude.{
  ℕ, ◌*◌, Bool, true, false, ◌||◌, ◌&&◌, not, Option, none, some, if◌then◌else◌,
}
use mipt_mips.Macro.{sign_extension}
use mipt_mips.Trap.{Trap, same_trap}

pub data OperationType : Type 0 where
  out_arithm out_divmult out_r_accum out_r_condm out_r_jump out_syscall out_break out_r_subtr :
      OperationType
  out_branch out_branch_likely out_trap out_load out_loadu out_partial_load out_store :
      OperationType
  out_j_jump out_j_special out_fpu out_unknown : OperationType

-- The sign of `get_accumulation_type`: +1, -1 and 0.
pub data Accumulation : Type 0 where
  plus minus keep : Accumulation

pub record Datapath : Type 0 where
  pub operation : OperationType
  pub trap : Trap
  pub mem_addr : ℕ
  pub mem_size : ℕ
  pub v_imm : ℕ
  pub delayed_slots : ℕ
  pub is_taken_branch : Bool
  pub pc : ℕ
  pub new_pc : ℕ
  pub target : ℕ
  pub sequence_id : ℕ
  pub v_src0 : ℕ
  pub v_src1 : ℕ
  pub v_dst0 : ℕ
  pub v_dst1 : ℕ
  pub mask : ℕ
  pub complete : Bool
  pub memory_complete : Bool

unfoldable pub is_direct_jump : OperationType → Bool
is_direct_jump OperationType.out_j_jump = true
is_direct_jump _ = false

unfoldable pub is_common_branch : OperationType → Bool
is_common_branch OperationType.out_branch = true
is_common_branch _ = false

unfoldable pub is_likely_branch : OperationType → Bool
is_likely_branch OperationType.out_branch_likely = true
is_likely_branch _ = false

unfoldable pub is_branch : OperationType → Bool
unfolding is_common_branch is_likely_branch
is_branch o = is_common_branch o || is_likely_branch o

unfoldable pub is_indirect_jump : OperationType → Bool
is_indirect_jump OperationType.out_r_jump = true
is_indirect_jump _ = false

unfoldable pub is_jump : OperationType → Bool
unfolding is_direct_jump is_branch is_indirect_jump
is_jump o = is_direct_jump o || is_branch o || is_indirect_jump o

unfoldable pub is_taken : Datapath → Bool
unfolding is_direct_jump is_indirect_jump
is_taken instr =
    is_direct_jump instr.operation || is_indirect_jump instr.operation || instr.is_taken_branch

unfoldable pub is_partial_load : OperationType → Bool
is_partial_load OperationType.out_partial_load = true
is_partial_load _ = false

unfoldable pub is_unsigned_load : OperationType → Bool
is_unsigned_load OperationType.out_loadu = true
is_unsigned_load _ = false

unfoldable pub is_signed_load : OperationType → Bool
is_signed_load OperationType.out_load = true
is_signed_load _ = false

unfoldable pub is_load : OperationType → Bool
unfolding is_unsigned_load is_signed_load is_partial_load
is_load o = is_unsigned_load o || is_signed_load o || is_partial_load o

unfoldable pub get_accumulation_type : OperationType → Accumulation
get_accumulation_type OperationType.out_r_accum = Accumulation.plus
get_accumulation_type OperationType.out_r_subtr = Accumulation.minus
get_accumulation_type _ = Accumulation.keep

unfoldable pub is_conditional_move : OperationType → Bool
is_conditional_move OperationType.out_r_condm = true
is_conditional_move _ = false

unfoldable pub is_divmult : OperationType → Bool
is_divmult OperationType.out_divmult = true
is_divmult OperationType.out_r_accum = true
is_divmult OperationType.out_r_subtr = true
is_divmult _ = false

unfoldable pub is_explicit_trap : OperationType → Bool
is_explicit_trap OperationType.out_trap = true
is_explicit_trap _ = false

unfoldable pub is_store : OperationType → Bool
is_store OperationType.out_store = true
is_store _ = false

unfoldable pub has_trap : Datapath → Bool
has_trap instr = not (same_trap instr.trap Trap.no_trap)

unfoldable pub has_memory_address : Datapath → Bool
unfolding is_load is_store
has_memory_address instr = (is_load instr.operation || is_store instr.operation) && instr.complete

unfoldable pub is_dst_complete : Datapath → Bool
unfolding is_load
is_dst_complete instr = if is_load instr.operation then instr.memory_complete else instr.complete

-- `load`; `none` is the failed assertion.
unfoldable pub load : ℕ → Datapath → ℕ → Option Datapath
unfolding is_load is_unsigned_load
load w instr value =
    if is_load instr.operation
    then some (record instr {
      memory_complete = true;
      v_dst0 =
          if is_unsigned_load instr.operation
          then value
          else sign_extension w value (8 * instr.mem_size);
    })
    else none

-- `execute`, for an executor of the table of instructions.
unfoldable pub execute : (Datapath → Datapath) → Datapath → Datapath
execute executor instr = record (executor instr) { complete = true }
