-- ===== src/Pipeline/Branch.antt =====
-- modules/branch: the stage that detects the branches that were not predicted.
use mipt_mips.Prelude.{ℕ, Bool, true, not, ◌&&◌, ◌||◌, Option, none, some, ◌==◌, if◌then◌else◌}
use mipt_mips.Prelude.Word.{add_word}
use mipt_mips.Operation.{is_common_branch, is_likely_branch, is_indirect_jump, is_jump, is_taken}
use mipt_mips.Bpu.{BpInterface}
use mipt_mips.Pipeline.{PerfInstr, Target, get_bp_upd, get_actual_target, is_set}

unfoldable pub is_misprediction : PerfInstr → BpInterface → Bool
is_misprediction instr bp_data =
    let o = instr.func_instr.operation in
    let taken = is_taken instr.func_instr in
    if not bp_data.is_hit
      && ((is_common_branch o && taken) || (is_likely_branch o && not taken) || is_indirect_jump o)
    then true
    else if bp_data.is_hit && (if bp_data.is_taken then not taken else taken)
    then true
    else (bp_data.is_taken || is_indirect_jump o) && not (bp_data.target == instr.func_instr.new_pc)

-- The counters of the class.
pub record Branch : Type 0 where
  pub num_mispredictions : ℕ
  pub num_jumps : ℕ

pub record Inputs : Type 0 where
  pub flush : Option Bool
  pub trap : Option Bool
  pub datapath : Option PerfInstr

pub record Outputs : Type 0 where
  pub bp_update : Option BpInterface
  pub flush_all : Option Bool
  pub bypassing_unit_flush_notify : Option Bool
  pub flush_target : Option Target
  pub bypass : Option (ℕ × ℕ)
  pub datapath : Option PerfInstr

abbrev pub no_outputs : Outputs
no_outputs = record {
  bp_update = none;
  flush_all = none;
  bypassing_unit_flush_notify = none;
  flush_target = none;
  bypass = none;
  datapath = none;
}

-- `clock`, after the instruction was read.
unfoldable pub process : Branch → PerfInstr → Branch × Outputs
unfolding is_misprediction get_bp_upd get_actual_target
process b instr =
    let wrong = is_misprediction instr instr.bp_data in
    (
      record {
        num_mispredictions =
            if wrong then add_word 64 b.num_mispredictions 1 else b.num_mispredictions;
        num_jumps =
            if is_jump instr.func_instr.operation then add_word 64 b.num_jumps 1 else b.num_jumps;
      },
      record {
        bp_update = some (get_bp_upd instr);
        flush_all = if wrong then some true else none;
        bypassing_unit_flush_notify = if wrong then some true else none;
        flush_target = if wrong then some (get_actual_target instr) else none;
        bypass = some (instr.func_instr.v_dst0, instr.func_instr.v_dst1);
        datapath = some instr;
      },
    )

unfoldable pub clock : Branch → Inputs → Branch × Outputs
unfolding process is_set
clock b i = elim i.datapath [
  | none ↦ (b, no_outputs)
  | some instr ↦ if is_set i.flush || is_set i.trap then (b, no_outputs) else process b instr
]
