-- ===== src/Bypass.antt =====
-- modules/decode/bypass/data_bypass.h and data_bypass_interface.h: the stages of a register and its
-- entry in the scoreboard of the decode stage, with what they ask of modules/core/perf_instr.h.
-- A latency is a word of 64 bits, below 2^63.
pub mod Unit
pub mod Stages
pub mod Courses
pub mod Scoreboard
pub mod Drain
use mipt_mips.Prelude.{
  ℕ, ◌+◌, ◌-◌, Bool, true, false, not, ◌&&◌, ◌||◌, Option, none, some, List, ◌==◌, ltb,
  if◌then◌else◌, get_elem?, set, length, map, replicate, ◌>>=◌,
}
use mipt_mips.Prelude.Word.{add_word, sub_word}
use mipt_mips.Operation.{
  OperationType, Accumulation, is_load, is_store, is_explicit_trap, is_jump, is_divmult,
  is_conditional_move, is_partial_load, get_accumulation_type,
}
use mipt_mips.RegisterFile.{RegisterClass}

pub record RegisterStage : Type 0 where
  pub bypass_direction : ℕ
  pub value : ℕ

abbrev pub in_rf_stage : ℕ
in_rf_stage = 255

abbrev pub mem_or_branch_stage : ℕ
mem_or_branch_stage = 253

abbrev pub wb_stage : ℕ
wb_stage = 254

-- The default member initialisers.
abbrev pub new_stage : RegisterStage
new_stage = record { bypass_direction = 0; value = 255 }

unfoldable pub inc : RegisterStage → RegisterStage
inc s = record s { value = add_word 64 s.value 1 }

unfoldable pub set_to_stage : RegisterStage → ℕ → RegisterStage
set_to_stage s v = record s { value = v }

unfoldable pub set_to_first_execution_stage : RegisterStage → RegisterStage
unfolding set_to_stage
set_to_first_execution_stage s = record (set_to_stage s 0) { bypass_direction = 0 }

unfoldable pub set_to_mem_stage : RegisterStage → RegisterStage
unfolding set_to_stage
set_to_mem_stage s = record (set_to_stage s mem_or_branch_stage) { bypass_direction = 2 }

unfoldable pub set_to_writeback : RegisterStage → RegisterStage
unfolding set_to_stage
set_to_writeback s = record (set_to_stage s wb_stage) { bypass_direction = 3 }

unfoldable pub set_to_branch_stage : RegisterStage → RegisterStage
unfolding set_to_stage
set_to_branch_stage s = record (set_to_stage s mem_or_branch_stage) { bypass_direction = 4 }

unfoldable pub set_to_in_rf : RegisterStage → RegisterStage
unfolding set_to_stage
set_to_in_rf s = set_to_stage s in_rf_stage

unfoldable pub is_same_stage : RegisterStage → ℕ → Bool
is_same_stage s v = s.value == v

-- `BypassCommand::get_bypass_direction`.
unfoldable pub get_bypass_direction : RegisterStage → ℕ → ℕ
unfolding is_same_stage
get_bypass_direction bypassing_stage last_execution_stage =
    if is_same_stage bypassing_stage last_execution_stage
    then 1
    else bypassing_stage.bypass_direction

-- `PerfInstr`.
unfoldable pub is_long_arithmetic : OperationType → Bool
unfolding is_divmult
is_long_arithmetic o = is_divmult o

unfoldable pub is_mem_stage_required : OperationType → Bool
unfolding is_load is_store is_explicit_trap
is_mem_stage_required o = is_load o || is_store o || is_explicit_trap o

unfoldable pub is_branch_stage_required : OperationType → Bool
unfolding is_jump
is_branch_stage_required o = is_jump o

unfoldable pub is_keep : Accumulation → Bool
is_keep Accumulation.keep = true
is_keep _ = false

unfoldable pub can_bypass : OperationType → Bool
unfolding is_conditional_move is_partial_load get_accumulation_type is_keep
can_bypass o =
    not (is_conditional_move o) && not (is_partial_load o) && is_keep (get_accumulation_type o)

pub record RegisterInfo : Type 0 where
  pub current_stage : RegisterStage
  pub ready_stage : RegisterStage
  pub next_stage_after_first_execution_stage : RegisterStage
  pub is_bypassible : Bool
  pub is_traced : Bool

-- `RegisterInfo::reset` assigns this value.
abbrev pub new_info : RegisterInfo
new_info = record {
  current_stage = new_stage;
  ready_stage = new_stage;
  next_stage_after_first_execution_stage = new_stage;
  is_bypassible = false;
  is_traced = false;
}

-- `set_next_stage_after_first_execution_stage`, the new stage from the old.
unfoldable pub next_stage : OperationType → RegisterStage → RegisterStage
unfolding is_long_arithmetic is_branch_stage_required is_mem_stage_required
    set_to_first_execution_stage inc set_to_branch_stage set_to_mem_stage set_to_writeback
next_stage o s =
    if is_long_arithmetic o
    then inc (set_to_first_execution_stage s)
    else if is_branch_stage_required o
    then set_to_branch_stage s
    else if is_mem_stage_required o
    then set_to_mem_stage s
    else set_to_writeback s

module _ (long_alu_latency : ℕ) where
  unfoldable pub get_instruction_latency : OperationType → ℕ
  unfolding is_long_arithmetic is_branch_stage_required is_mem_stage_required
  get_instruction_latency o =
      if is_mem_stage_required o || is_branch_stage_required o
      then 2
      else if is_long_arithmetic o
      then long_alu_latency
      else 1

  -- The choice of `ready_stage` in `trace_new_dst_register`.
  unfoldable pub ready_stage_of : OperationType → RegisterStage → RegisterStage
  unfolding is_long_arithmetic is_jump is_load set_to_stage set_to_branch_stage set_to_mem_stage
      set_to_first_execution_stage can_bypass set_to_in_rf
  ready_stage_of o s =
      let ready : RegisterStage =
        if is_long_arithmetic o
        then set_to_stage s (sub_word 64 long_alu_latency 1)
        else if is_jump o
        then set_to_branch_stage s
        else if is_load o
        then set_to_mem_stage s
        else set_to_first_execution_stage s in
      if not (can_bypass o) then set_to_in_rf ready else ready

  unfoldable pub trace_new_dst_register : OperationType → RegisterInfo → RegisterInfo
  unfolding set_to_first_execution_stage next_stage ready_stage_of is_same_stage
  trace_new_dst_register o entry =
      let current : RegisterStage = set_to_first_execution_stage entry.current_stage in
      let ready : RegisterStage = ready_stage_of o entry.ready_stage in
      record {
        current_stage = current;
        ready_stage = ready;
        next_stage_after_first_execution_stage =
            next_stage o entry.next_stage_after_first_execution_stage;
        is_bypassible = is_same_stage current ready.value;
        is_traced = true;
      }

  unfoldable pub trace_new_dst2_register : OperationType → RegisterInfo → RegisterInfo
  unfolding set_to_first_execution_stage next_stage set_to_in_rf
  trace_new_dst2_register o entry = record entry {
    current_stage = set_to_first_execution_stage entry.current_stage;
    ready_stage = set_to_in_rf entry.ready_stage;
    next_stage_after_first_execution_stage =
        next_stage o entry.next_stage_after_first_execution_stage;
    is_traced = true;
  }

  -- The stage that the loop of `update` moves a traced entry to.
  unfoldable pub advance : RegisterInfo → RegisterStage
  unfolding is_same_stage set_to_writeback inc
  advance entry =
      if is_same_stage entry.current_stage 0
      then entry.next_stage_after_first_execution_stage
      else if is_same_stage entry.current_stage (sub_word 64 long_alu_latency 1)
          || is_same_stage entry.current_stage mem_or_branch_stage
      then set_to_writeback entry.current_stage
      else inc entry.current_stage

  -- The body of the loop of `update`.
  unfoldable pub update_entry : RegisterInfo → RegisterInfo
  unfolding is_same_stage advance
  update_entry entry =
      if not entry.is_traced
      then entry
      else if is_same_stage entry.current_stage wb_stage
      then new_info
      else let current : RegisterStage = advance entry in
        record entry {
          current_stage = current;
          is_bypassible =
              if is_same_stage current entry.ready_stage.value then true else entry.is_bypassible;
        }

unfoldable pub flush_entry : RegisterInfo → RegisterInfo
flush_entry entry = if entry.is_traced then new_info else entry
