-- ===== src/Bypass/Unit.antt =====
-- `class DataBypass` of modules/decode/bypass/data_bypass.h: the scoreboard of the decode stage. A
-- register is its `to_rf_index`; `none` is an access out of the bounds of an array.
use mipt_mips.Prelude.{
  ℕ, ◌-◌, Bool, not, ◌&&◌, ◌||◌, Option, some, List, ◌==◌, ltb, if◌then◌else◌, get_elem?, set, map,
  replicate, ◌>>=◌,
}
use mipt_mips.Prelude.Word.{sub_word}
use mipt_mips.Operation.{OperationType}
use mipt_mips.RegisterFile.{RegisterClass}
use mipt_mips.Bypass.{
  RegisterInfo, new_info, in_rf_stage, is_same_stage, get_bypass_direction, get_instruction_latency,
  trace_new_dst_register, trace_new_dst2_register, update_entry, flush_entry,
}

-- What the unit reads of an instruction.
pub record Instr : Type 0 where
  pub operation : OperationType
  pub src : List ℕ
  pub dst : List ℕ

pub record DataBypass : Type 0 where
  pub scoreboard : List RegisterInfo
  pub operation_latency : ℕ
  pub writeback_bandwidth : ℕ

unfoldable pub new_bypass : RegisterClass → DataBypass
new_bypass c = record {
  scoreboard = replicate c.max_reg new_info;
  operation_latency = 0;
  writeback_bandwidth = 1;
}

unfoldable pub update : ℕ → DataBypass → DataBypass
unfolding update_entry
update long_alu_latency u = record u {
  scoreboard = map (update_entry long_alu_latency) u.scoreboard;
  operation_latency = if u.operation_latency == 0 then 0 else u.operation_latency - 1;
}

unfoldable pub handle_flush : DataBypass → DataBypass
unfolding flush_entry
handle_flush u = record u { scoreboard = map flush_entry u.scoreboard; operation_latency = 0 }

unfoldable pub set_bandwidth : DataBypass → ℕ → DataBypass
set_bandwidth u wb_bandwidth = record u { writeback_bandwidth = wb_bandwidth }

unfoldable pub get_entry : DataBypass → ℕ → Option RegisterInfo
get_entry u idx = get_elem? u.scoreboard idx

unfoldable pub is_in_rf : DataBypass → Instr → ℕ → Option Bool
unfolding get_entry is_same_stage
is_in_rf u instr src_index = do
  reg_num ← get_elem? instr.src src_index
  entry ← get_entry u reg_num
  some (is_same_stage entry.current_stage in_rf_stage)

unfoldable pub is_bypassible_src : DataBypass → Instr → ℕ → Option Bool
unfolding get_entry
is_bypassible_src u instr src_index = do
  reg_num ← get_elem? instr.src src_index
  entry ← get_entry u reg_num
  some entry.is_bypassible

-- The accesses to both sources, whether or not the first one decides.
unfoldable pub is_stall : ℕ → DataBypass → Instr → Option Bool
unfolding is_in_rf is_bypassible_src get_instruction_latency
is_stall long_alu_latency u instr = do
  in_rf0 ← is_in_rf u instr 0
  bypassible0 ← is_bypassible_src u instr 0
  in_rf1 ← is_in_rf u instr 1
  bypassible1 ← is_bypassible_src u instr 1
  let instruction_latency = get_instruction_latency long_alu_latency instr.operation
  some (
      (not in_rf0 && not bypassible0)
      || (not in_rf1 && not bypassible1)
      || (ltb instruction_latency u.operation_latency
          && ltb u.writeback_bandwidth u.operation_latency))

-- The direction of the command.
unfoldable pub get_bypass_command : ℕ → DataBypass → Instr → ℕ → Option ℕ
unfolding get_entry get_bypass_direction
get_bypass_command long_alu_latency u instr src_index = do
  reg_num ← get_elem? instr.src src_index
  entry ← get_entry u reg_num
  some (get_bypass_direction entry.current_stage (sub_word 64 long_alu_latency 1))

-- `get_entry` for writing: the entry of a register is replaced.
unfoldable pub modify_entry : DataBypass → ℕ → (RegisterInfo → RegisterInfo) → Option DataBypass
unfolding get_entry
modify_entry u idx f = do
  entry ← get_entry u idx
  some (record u { scoreboard = set u.scoreboard idx (f entry) })

-- Register zero is not traced.
unfoldable pub trace_unless_zero :
    RegisterClass → DataBypass → ℕ → (RegisterInfo → RegisterInfo) → Option DataBypass
unfolding modify_entry
trace_unless_zero c u num f = if c.is_zero num then some u else modify_entry u num f

unfoldable pub trace_new_instr : RegisterClass → ℕ → DataBypass → Instr → Option DataBypass
unfolding trace_unless_zero trace_new_dst_register trace_new_dst2_register get_instruction_latency
trace_new_instr c long_alu_latency u instr = do
  let o = instr.operation
  let started = record u { operation_latency = get_instruction_latency long_alu_latency o }
  dst ← get_elem? instr.dst 0
  dst2 ← get_elem? instr.dst 1
  first ← trace_unless_zero c started dst (trace_new_dst_register long_alu_latency o)
  trace_unless_zero c first dst2 (trace_new_dst2_register long_alu_latency o)
