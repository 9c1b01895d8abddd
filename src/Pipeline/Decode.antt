-- ===== src/Pipeline/Decode.antt =====
-- modules/decode/decode.cpp: the stage that reads the sources and detects jumps that were not
-- predicted. `none` is an exception of an array; the latency is that of the long unit.
use mipt_mips.Prelude.{
  ℕ, Bool, true, false, not, ◌&&◌, ◌||◌, Option, none, some, ◌==◌, if◌then◌else◌, get_elem?, ◌>>=◌,
}
use mipt_mips.Prelude.Word.{add_word}
use mipt_mips.Operation.{is_direct_jump, is_indirect_jump, is_likely_branch, is_branch, is_jump}
use mipt_mips.RegisterFile.{RegisterClass, Registers}
use mipt_mips.RegisterFile as RegisterFile
use mipt_mips.Bpu.{BpInterface}
use mipt_mips.Bypass.Unit.{
  Instr, DataBypass, update, handle_flush, trace_new_instr, is_stall, is_in_rf, is_bypassible_src,
  get_bypass_command,
}
use mipt_mips.Pipeline.{
  PerfInstr, Target, registers_of, get_bp_upd, get_actual_decoded_target, is_set, is_ready,
}

unfoldable pub is_misprediction : PerfInstr → BpInterface → Bool
is_misprediction instr bp_data =
    let o = instr.func_instr.operation in
    if (is_direct_jump o || is_indirect_jump o) && not bp_data.is_taken
    then true
    else if is_likely_branch o && not bp_data.is_hit
    then true
    else (is_direct_jump o || is_branch o)
      && (not (bp_data.target == instr.func_instr.target) && bp_data.is_taken)

pub record Decode : Type 0 where
  pub bypassing_unit : DataBypass
  pub num_jumps : ℕ
  pub num_mispredictions : ℕ

pub record Inputs : Type 0 where
  pub datapath : Option PerfInstr
  pub stall_datapath : Option PerfInstr
  pub flush : Option Bool
  pub flush_fetch : Option Bool
  pub trap : Option Bool
  pub bypassing_unit_notify : Option Instr
  pub bypassing_unit_flush_notify : Option Bool

pub record Outputs : Type 0 where
  pub datapath : Option PerfInstr
  pub stall_datapath : Option PerfInstr
  pub stall : Option Bool
  pub bypassing_unit_notify : Option Instr
  pub bp_update : Option BpInterface
  pub command0 : Option ℕ
  pub command1 : Option ℕ
  pub flush_fetch : Option Bool
  pub flush_target : Option Target

abbrev pub no_outputs : Outputs
no_outputs = record {
  datapath = none;
  stall_datapath = none;
  stall = none;
  bypassing_unit_notify = none;
  bp_update = none;
  command0 = none;
  command1 = none;
  flush_fetch = none;
  flush_target = none;
}

-- `is_flush`
unfoldable pub is_flush : Inputs → Bool
unfolding is_set
is_flush i = is_set i.flush || is_set i.flush_fetch

-- `read_instr`, where an instruction is ready.
unfoldable pub read_instr : Inputs → Option (PerfInstr × Bool)
read_instr i = elim i.stall_datapath [
  | some instr ↦ some (instr, true)
  | none ↦ elim i.datapath [ none ↦ none | some instr ↦ some (instr, false) ]
]

-- The value and the command of one source.
unfoldable pub read_source : ℕ → DataBypass → Registers → Instr → ℕ → ℕ → Option (ℕ × Option ℕ)
unfolding is_in_rf is_bypassible_src get_bypass_command RegisterFile.read
read_source long_alu_latency u rf instr src_index v_src = do
  in_rf ← is_in_rf u instr src_index
  bypassible ← is_bypassible_src u instr src_index
  num ← get_elem? instr.src src_index
  elim in_rf [
    | true ↦ RegisterFile.read rf num >>= λ value. some (value, none)
    | false ↦ elim bypassible [
      | true ↦ get_bypass_command long_alu_latency u instr src_index >>= λ command.
          some (v_src, some command)
      | false ↦ some (v_src, none)
    ]
  ]

unfoldable pub trace_notified : RegisterClass → ℕ → DataBypass → Option Instr → Option DataBypass
unfolding trace_new_instr
trace_notified c long_alu_latency u none = some u
trace_notified c long_alu_latency u (some instr) = trace_new_instr c long_alu_latency u instr

-- The start of `clock`: the updates of the bypass unit.
unfoldable pub update_bypass : RegisterClass → ℕ → DataBypass → Inputs → Option DataBypass
unfolding update handle_flush trace_notified is_ready is_set
update_bypass c long_alu_latency u i = do
  let updated = update long_alu_latency u
  traced ← trace_notified c long_alu_latency updated i.bypassing_unit_notify
  some (
      if is_ready i.bypassing_unit_flush_notify || is_set i.trap
      then handle_flush traced
      else traced)

-- What `clock` writes where the instruction is mispredicted.
unfoldable pub correct : PerfInstr → Bool → Bool → Outputs → Outputs
unfolding get_bp_upd get_actual_decoded_target
correct instr stall from_stall o = record o {
  bp_update = some (get_bp_upd instr);
  flush_fetch = if stall then none else some true;
  flush_target = if from_stall then none else some (get_actual_decoded_target instr);
}

-- The end of `clock`, for an instruction that does not stall.
unfoldable pub issue : ℕ → DataBypass → Registers → PerfInstr → Outputs → Option Outputs
unfolding read_source
issue long_alu_latency u rf instr o = do
  let i = registers_of instr
  (v_src0, command0) ← read_source long_alu_latency u rf i 0 instr.func_instr.v_src0
  (v_src1, command1) ← read_source long_alu_latency u rf i 1 instr.func_instr.v_src1
  let ready = record instr {
    func_instr = record instr.func_instr { v_src0 = v_src0; v_src1 = v_src1 };
  }
  some (record o {
    command0 = command0;
    command1 = command1;
    bypassing_unit_notify = some i;
    datapath = some ready;
  })

-- `clock`, from the check of the prediction on.
unfoldable pub process : ℕ → Registers → Decode → PerfInstr → Bool → Option (Decode × Outputs)
unfolding is_misprediction is_stall correct issue
process long_alu_latency rf d instr from_stall = do
  let wrong = is_misprediction instr instr.bp_data
  let counted = record d {
    num_jumps =
        if is_jump instr.func_instr.operation then add_word 64 d.num_jumps 1 else d.num_jumps;
    num_mispredictions = if wrong then add_word 64 d.num_mispredictions 1 else d.num_mispredictions;
  }
  stall ← is_stall long_alu_latency d.bypassing_unit (registers_of instr)
  let corrected = if wrong then correct instr stall from_stall no_outputs else no_outputs
  elim stall [
    | true ↦ some (counted, record corrected { stall = some true; stall_datapath = some instr })
    | false ↦ issue long_alu_latency d.bypassing_unit rf instr corrected >>= λ issued.
        some (counted, issued)
  ]

unfoldable pub clock : RegisterClass → ℕ → Registers → Decode → Inputs → Option (Decode × Outputs)
unfolding update_bypass is_flush is_set read_instr process
clock c long_alu_latency rf d i = do
  u ← update_bypass c long_alu_latency d.bypassing_unit i
  let updated = record d { bypassing_unit = u }
  elim (is_flush i || is_set i.trap) [
    | true ↦ some (updated, no_outputs)
    | false ↦ elim (read_instr i) [
      | none ↦ some (updated, no_outputs)
      | some (instr, from_stall) ↦ process long_alu_latency rf updated instr from_stall
    ]
  ]
