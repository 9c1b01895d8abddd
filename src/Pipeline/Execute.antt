-- ===== src/Pipeline/Execute.antt =====
-- modules/execute: the stage of the ALU, with the unit for long operations. `none` is an exception of
-- `at`. A bypass port gives a list, since the stage reads all that is ready.
use mipt_mips.Prelude.{
  ℕ, ◌-◌, Bool, ◌||◌, Option, none, some, List, [], ◌∷◌, ◌++◌, ◌==◌, if◌then◌else◌, get_elem?,
  ◌>>=◌,
}
use mipt_mips.Operation.{Datapath, execute, is_jump}
use mipt_mips.Bypass.{is_long_arithmetic, is_mem_stage_required}
use mipt_mips.Pipeline.{PerfInstr, is_set}

-- What the ports of one source give: a command, and the values of each bypass.
pub record BypassSource : Type 0 where
  pub command : Option ℕ
  pub data_ports : List (List ℕ)

pub record Inputs : Type 0 where
  pub flush : Option Bool
  pub trap : Option Bool
  pub datapath : Option PerfInstr
  pub long_latency : Option PerfInstr
  pub source0 : BypassSource
  pub source1 : BypassSource

-- What is written to the write-back stage is in the order of the writes.
pub record Outputs : Type 0 where
  pub mem_datapath : Option PerfInstr
  pub branch_datapath : Option PerfInstr
  pub writeback_datapath : List PerfInstr
  pub long_latency : Option PerfInstr
  pub bypass : Option (ℕ × ℕ)
  pub long_arithmetic_bypass : Option (ℕ × ℕ)

abbrev pub no_outputs : Outputs
no_outputs = record {
  mem_datapath = none;
  branch_datapath = none;
  writeback_datapath = [];
  long_latency = none;
  bypass = none;
  long_arithmetic_bypass = none;
}

-- `while ( port->is_ready( cycle)) data = port->read( cycle)[0]`
unfoldable pub last_value : ℕ → List ℕ → ℕ
last_value value [] = value
last_value value (next ∷ rest) = last_value next rest

unfoldable pub bypassed : BypassSource → ℕ → Option ℕ
unfolding last_value
bypassed source v_src = elim source.command [
  | none ↦ some v_src
  | some direction ↦ get_elem? source.data_ports direction >>= λ port. some (last_value 0 port)
]

unfoldable pub clock_saved_flush : ℕ → ℕ
clock_saved_flush flush_expiration_latency =
    if flush_expiration_latency == 0 then 0 else flush_expiration_latency - 1

unfoldable pub has_flush_expired : ℕ → Bool
has_flush_expired flush_expiration_latency = flush_expiration_latency == 0

-- What `clock` does with the instruction of the long unit.
unfoldable pub take_long : ℕ → Option PerfInstr → Outputs
unfolding has_flush_expired
take_long flush_expiration_latency none = no_outputs
take_long flush_expiration_latency (some instr) =
    if has_flush_expired flush_expiration_latency
    then record no_outputs {
      long_arithmetic_bypass = some (instr.func_instr.v_dst0, instr.func_instr.v_dst1);
      writeback_datapath = instr ∷ [];
    }
    else no_outputs

-- The end of `clock`: the next stage of an executed instruction.
unfoldable pub dispatch : PerfInstr → Outputs → Outputs
unfolding is_long_arithmetic is_mem_stage_required is_jump
dispatch instr o =
    let operation = instr.func_instr.operation in
    if is_long_arithmetic operation
    then record o { long_latency = some instr }
    else let bypassing = record o {
      bypass = some (instr.func_instr.v_dst0, instr.func_instr.v_dst1);
    } in
      if is_jump operation
      then record bypassing { branch_datapath = some instr }
      else if is_mem_stage_required operation
      then record bypassing { mem_datapath = some instr }
      else record bypassing { writeback_datapath = o.writeback_datapath ++ instr ∷ [] }

module _ (executor : PerfInstr → Datapath → Datapath) (last_execution_stage_latency : ℕ) where
  unfoldable pub process : Inputs → PerfInstr → Outputs → Option Outputs
  unfolding bypassed dispatch
  process i instr o = do
    v_src0 ← bypassed i.source0 instr.func_instr.v_src0
    v_src1 ← bypassed i.source1 instr.func_instr.v_src1
    let sourced = record instr.func_instr { v_src0 = v_src0; v_src1 = v_src1 }
    some (dispatch (record instr { func_instr = execute (executor instr) sourced }) o)

  -- The state is `flush_expiration_latency`.
  unfoldable pub clock : ℕ → Inputs → Option (ℕ × Outputs)
  unfolding clock_saved_flush take_long process is_set
  clock flush_expiration_latency i =
      let clocked = clock_saved_flush flush_expiration_latency in
      if is_set i.flush || is_set i.trap
      then some (last_execution_stage_latency, no_outputs)
      else elim i.datapath [
        | none ↦ some (clocked, take_long clocked i.long_latency)
        | some instr ↦ process i instr (take_long clocked i.long_latency) >>= λ o. some (clocked, o)
      ]
