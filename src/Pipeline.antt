-- ===== src/Pipeline.antt =====
-- infra/target.h and modules/core/perf_instr.h: an instruction in the pipeline, and the address of the
-- next one. What a read port gives in a cycle is `some` where it is ready, since the ports discard an
-- entry that is not read in its cycle; what a unit writes to a port in a cycle is `some`.
pub mod Branch
pub mod Mem
pub mod Decode
pub mod Execute
pub mod LongUnit
pub mod Flushes
pub mod Prediction
use mipt_mips.Prelude.{ℕ, Bool, true, false, Option, none, some, List, ◌||◌, if◌then◌else◌}
use mipt_mips.Prelude.Word.{add_word}
use mipt_mips.Operation.{Datapath, is_indirect_jump, is_taken}
use mipt_mips.Bpu.{BpInterface}
use mipt_mips.Bypass.Unit.{Instr}

pub record Target : Type 0 where
  pub address : ℕ
  pub sequence_id : ℕ
  pub valid : Bool

-- `Target()`
abbrev pub no_target : Target
no_target = record { address = 0xdeadbeef; sequence_id = 0xfeedfacecafebeaf; valid = false }

-- `Target( a, id)`
abbrev pub new_target : ℕ → ℕ → Target
new_target a id = record { address = a; sequence_id = id; valid = true }

-- `PerfInstr`: the instruction with the indices of its registers and the prediction for it.
pub record PerfInstr : Type 0 where
  pub func_instr : Datapath
  pub src : List ℕ
  pub dst : List ℕ
  pub bp_data : BpInterface

-- What the bypass unit asks of an instruction.
abbrev pub registers_of : PerfInstr → Instr
registers_of instr = record {
  operation = instr.func_instr.operation;
  src = instr.src;
  dst = instr.dst;
}

unfoldable pub get_bp_upd_address : PerfInstr → ℕ
get_bp_upd_address instr =
    if is_indirect_jump instr.func_instr.operation
    then instr.func_instr.new_pc
    else instr.func_instr.target

unfoldable pub get_predicted_target : PerfInstr → Target
get_predicted_target instr =
    new_target instr.bp_data.target (add_word 64 instr.func_instr.sequence_id 1)

unfoldable pub get_actual_target : PerfInstr → Target
get_actual_target instr =
    new_target instr.func_instr.new_pc (add_word 64 instr.func_instr.sequence_id 1)

unfoldable pub get_actual_decoded_target : PerfInstr → Target
get_actual_decoded_target instr =
    new_target instr.func_instr.target (add_word 64 instr.func_instr.sequence_id 1)

unfoldable pub get_bp_upd : PerfInstr → BpInterface
unfolding get_bp_upd_address
get_bp_upd instr = record {
  pc = instr.func_instr.pc;
  is_taken = is_taken instr.func_instr;
  target = get_bp_upd_address instr;
  is_hit = true;
}

-- `port->is_ready( cycle) && port->read( cycle)`
unfoldable pub is_set : Option Bool → Bool
is_set none = false
is_set (some signal) = signal

-- `port->is_ready( cycle)`
unfoldable pub is_ready {ℓ} : {A : Type ℓ} → Option A → Bool
is_ready none = false
is_ready (some value) = true
