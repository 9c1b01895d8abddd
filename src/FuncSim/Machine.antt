-- ===== src/FuncSim/Machine.antt =====
-- func_sim/func_sim.cpp and kernel/kernel.cpp: the step and the run of the functional simulator, over
-- an instruction memory, a kernel and a driver. `none` is an exception, whose state is not modelled.
use mipt_mips.Prelude.{
  ℕ, zero, suc, ◌*◌, Bool, true, false, Option, none, some, if◌then◌else◌, get_elem?, ◌>>=◌,
}
use mipt_mips.Prelude.Word.{add_word}
use mipt_mips.Endian.{Endian}
use mipt_mips.Trap.{Trap, same_trap}
use mipt_mips.Operation.{Datapath, execute}
use mipt_mips.RegisterFile.{RegisterClass, Registers, read_sources, write_dst}
use mipt_mips.Memory.Access.{FuncMemory, load_store}
use mipt_mips.InstrCache.{HashTable}
use mipt_mips.InstrCache.InstrMemory.{Isa, Cache, fetch_instr, fetch_cached}
use mipt_mips.FuncSim.{Sequencer, update_pc, update_and_check_nop_counter}

-- What the simulator asks of the instructions of an ISA: their base class, their executor and the
-- indices of their registers. A register has `bytes` bytes.
pub record FuncIsa : Type 1 where
  pub isa : Isa
  pub bytes : ℕ
  pub register : RegisterClass
  pub datapath : isa.Instr → Datapath
  pub executor : isa.Instr → Datapath → Datapath
  pub src0 : isa.Instr → ℕ
  pub src1 : isa.Instr → ℕ
  pub dst0 : isa.Instr → ℕ
  pub dst1 : isa.Instr → ℕ
  pub is_nop : isa.Instr → Bool

-- What `Kernel::execute` ends with.
pub data Outcome : Type 0 where
  returns : Trap → Outcome
  bad_input fails : Outcome

module _ (f : FuncMemory) (i : FuncIsa) where
  -- `InstrMemoryIface`, with the state of the memory that implements it.
  pub record InstrMemoryIface : Type 1 where
    pub State : Type 0
    pub fetch_instr : State → ℕ → f.Memory → Option (State × i.isa.Instr)

  abbrev pub direct : Endian → InstrMemoryIface
  direct endian = record {
    State = Unit {0};
    fetch_instr = λ s pc memory. some (s, fetch_instr f i.isa endian pc memory);
  }

  abbrev pub cached : HashTable → Endian → InstrMemoryIface
  cached h endian = record { State = Cache f i.isa h; fetch_instr = fetch_cached f i.isa h endian }

  pub record Machine : Type 0 where
    pub rf : Registers
    pub sequencer : Sequencer
    pub sequence_id : ℕ
    pub memory : f.Memory

  -- `step`, after the fetch.
  unfoldable pub step_instr : Endian → Machine → i.isa.Instr → Option (Machine × Datapath)
  unfolding execute
  step_instr endian m instr = do
    let fetched = record (i.datapath instr) { sequence_id = m.sequence_id }
    sourced ← read_sources (8 * i.bytes) m.rf (i.src0 instr) (i.src1 instr) fetched
    (loaded, memory) ← load_store f i.bytes endian (execute (i.executor instr) sourced) m.memory
    rf ← write_dst (8 * i.bytes) i.register m.rf (i.dst0 instr) (i.dst1 instr) loaded
    updated ← update_pc loaded m.sequencer
    checked ← update_and_check_nop_counter (i.is_nop instr) updated
    some (
      record {
        rf = rf;
        sequencer = checked;
        sequence_id = add_word 64 m.sequence_id 1;
        memory = memory;
      },
      loaded,
    )

  module _ (imem : InstrMemoryIface) where
    unfoldable pub step : Endian → imem.State → Machine → Option (imem.State × Machine × Datapath)
    unfolding step_instr
    step endian s m = do
      pc ← get_elem? m.sequencer.pc 0
      (s', instr) ← imem.fetch_instr s pc m.memory
      (m', executed) ← step_instr endian m instr
      some (s', m', executed)

  -- The loop of `execute_interactive`, with the attempts left, over the kernel's `execute`.
  unfoldable pub execute_interactive {ℓ} :
      {K : Type ℓ}
      → (K → Machine → K × Machine × Outcome)
      → ℕ
      → K
      → Machine
      → Option (K × Machine × Trap)
  execute_interactive kernel zero k m = none
  execute_interactive kernel (suc attempts) k m =
      let (k', m', outcome) = kernel k m in
      elim outcome [
        | returns trap ↦ some (k', m', trap)
        | bad_input ↦ execute_interactive kernel attempts k' m'
        | fails ↦ none
      ]

  unfoldable pub handle_instruction {ℓ} :
      {K : Type ℓ}
      → (K → Machine → K × Machine × Outcome)
      → K
      → Machine
      → Datapath
      → Option (K × Machine × Datapath)
  unfolding execute_interactive same_trap
  handle_instruction kernel k m instr =
      if same_trap instr.trap Trap.syscall
      then (execute_interactive kernel 100 k m >>= λ (k', m', trap).
          some (k', m', record instr { trap = trap }))
      else some (k, m, instr)

  abbrev pub reset_nops : Machine → Machine
  reset_nops m = record m { sequencer = record m.sequencer { nops_in_a_row = 0 } }

  -- What the run has at its end, or before an instruction.
  pub record World {ℓ} (S : Type 0) (K : Type ℓ) : Type ℓ where
    pub imem_state : S
    pub machine : Machine
    pub kernel_state : K

  module _ {ℓ} {K : Type ℓ} (kernel : K → Machine → K × Machine × Outcome)
      (driver : Datapath → Machine → Option (Machine × Trap)) where
    -- What follows a step in the loop of `run`.
    unfoldable pub finish_round : K → Machine → Datapath → Option (K × Machine × Trap)
    unfolding handle_instruction
    finish_round k m instr = do
      (k', m', handled) ← handle_instruction kernel k m instr
      (m'', result_trap) ← driver handled m'
      some (k', m'', result_trap)

  module _ {ℓ} {K : Type ℓ} (kernel : K → Machine → K × Machine × Outcome)
      (driver : Datapath → Machine → Option (Machine × Trap)) (endian : Endian)
      (imem : InstrMemoryIface) where
    -- One round of the loop of `run`.
    unfoldable pub round : World imem.State K → Option (World imem.State K × Trap)
    unfolding step finish_round
    round x = do
      (s, m, instr) ← step imem endian x.imem_state x.machine
      (k, m', result_trap) ← finish_round kernel driver x.kernel_state m instr
      some (record { imem_state = s; machine = m'; kernel_state = k }, result_trap)

    -- The loop of `run`, with the instructions left.
    unfoldable pub run_loop : ℕ → World imem.State K → Option (World imem.State K × Trap)
    unfolding round same_trap
    run_loop zero x = some (x, Trap.breakpoint)
    run_loop (suc left) x = round x >>= λ (x', result_trap).
        elim (same_trap result_trap Trap.no_trap) [
          | true ↦ run_loop left x'
          | false ↦ some (x', result_trap)
        ]

    unfoldable pub run : ℕ → World imem.State K → Option (World imem.State K × Trap)
    unfolding run_loop
    run instrs_to_run x = run_loop instrs_to_run (record x { machine = reset_nops x.machine })
