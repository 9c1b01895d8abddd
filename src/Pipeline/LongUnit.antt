-- ===== src/Pipeline/LongUnit.antt =====
-- What a cycle of the execute stage does with the instruction of the long unit.
use mipt_mips.Prelude.{
  Bool, false, Bool-cases, ◌==◌, ℕ, zero, suc, ◌<◌, ◌≡◌, refl, true, false, ◌||◌, none, some, List,
  [], ◌∷◌, if◌then◌else◌, arith, ◌>>=◌, Option-cases, inl, inr, ap, length, get_elem?, Holds,
}
use mipt_mips.Operation.{Datapath, execute, is_jump}
use mipt_mips.Bypass.{is_long_arithmetic, is_mem_stage_required}
use mipt_mips.Pipeline.{PerfInstr, is_set}
use mipt_mips.Pipeline.Execute.{
  BypassSource, last_value, Inputs, Outputs, no_outputs, bypassed, clock_saved_flush,
  has_flush_expired, take_long, dispatch, process, clock,
}

-- The port of a command is one of those of its source.
unfoldable pub IsServed : BypassSource → Type 0
IsServed source = Holds (λ direction. direction < length source.data_ports) source.command

-- A cycle without a flush, whose commands have their ports.
pub record IsQuiet (i : Inputs) : Type 0 where
  pub quiet : (is_set i.flush || is_set i.trap) ≡ false
  pub served0 : IsServed i.source0
  pub served1 : IsServed i.source1

-- `get_elem?` of a place in the list.
get_elem-some :
    (ports : List (List ℕ)) (n : ℕ)
    → n < length ports
    → (port : List ℕ) × (get_elem? ports n ≡ some port)
get_elem-some [] n h = absurd (omega (arith, h))
get_elem-some (port ∷ ports) zero h = (port, refl)
get_elem-some (port ∷ ports) (suc n) h = get_elem-some ports n (omega (arith, h))

bypassed-some :
    (source : BypassSource) (v_src : ℕ)
    → IsServed source
    → (v : ℕ) × (bypassed source v_src ≡ some v)
unfolding bypassed IsServed
bypassed-some source v_src served = elim (Option-cases source.command) [
  | inl free ↦ (v_src, rw free refl)
  | inr (direction, command) ↦
      let (port, here) = get_elem-some source.data_ports direction (rw command at served) in
      (last_value 0 port, rw (command, here) refl)
]

-- What a cycle writes, with an instruction of the long unit that is not dropped.
unfoldable pub with_long : Bool → PerfInstr → Outputs → Outputs
with_long is_kept instr o =
    if is_kept
    then record o {
      long_arithmetic_bypass = some (instr.func_instr.v_dst0, instr.func_instr.v_dst1);
      writeback_datapath = instr ∷ o.writeback_datapath;
    }
    else o

dispatch-with_long :
    (is_kept : Bool) (long instr : PerfInstr) (o : Outputs)
    → dispatch instr (with_long is_kept long o) ≡ with_long is_kept long (dispatch instr o)
unfolding dispatch with_long
dispatch-with_long false long instr o = refl
dispatch-with_long true long instr o =
    let operation = instr.func_instr.operation in
    elim (Bool-cases (is_long_arithmetic operation)) [
      | inl slow ↦ rw slow refl
      | inr quick ↦ elim (Bool-cases (is_jump operation)) [
        | inl jump ↦ rw (quick, jump) refl
        | inr straight ↦ elim (Bool-cases (is_mem_stage_required operation)) [
          | inl memory ↦ rw (quick, straight, memory) refl
          | inr other ↦ rw (quick, straight, other) refl
        ]
      ]
    ]

dispatch-long :
    (instr : PerfInstr) (o : Outputs)
    → (dispatch instr o).long_arithmetic_bypass ≡ o.long_arithmetic_bypass
unfolding dispatch
dispatch-long instr o = ground arith

take_long-with_long :
    (latency : ℕ) (long : PerfInstr)
    → take_long latency (some long) ≡ with_long (has_flush_expired latency) long no_outputs
unfolding take_long with_long has_flush_expired
take_long-with_long latency long = elim (Bool-cases (latency == 0)) [
  | inl expired ↦ rw expired refl
  | inr pending ↦ rw pending refl
]

module _ (executor : PerfInstr → Datapath → Datapath) (last_execution_stage_latency : ℕ) where
  process_lem :
      (i : Inputs) (instr : PerfInstr)
      → IsQuiet i
      → (executed : PerfInstr) × ((o : Outputs)
          → process executor last_execution_stage_latency i instr o ≡ some (dispatch executed o))
  unfolding process
  process_lem i instr ok =
      let (v0, e0) = bypassed-some i.source0 instr.func_instr.v_src0 ok.served0 in
      let (v1, e1) = bypassed-some i.source1 instr.func_instr.v_src1 ok.served1 in
      let sourced = record instr.func_instr { v_src0 = v0; v_src1 = v1 } in
      let executed = record instr { func_instr = execute (executor instr) sourced } in
      (executed, λ o. rw (e0, e1) refl)

  pub clock-some :
      (latency : ℕ) (i : Inputs)
      → IsQuiet i
      → (o : Outputs) × (clock executor last_execution_stage_latency latency i
          ≡ some (clock_saved_flush latency, o))
  unfolding clock
  clock-some latency i ok = elim (Option-cases i.datapath) [
    | inl bubble ↦
        (take_long (clock_saved_flush latency) i.long_latency, rw (ok.quiet, bubble) refl)
    | inr (instr, ready) ↦
        let (executed, processed) = process_lem i instr ok in
        (
          dispatch executed (take_long (clock_saved_flush latency) i.long_latency),
          rw (ok.quiet, ready)
              (ap (λ r. r >>= λ o. some (clock_saved_flush latency, o))
                (processed (take_long (clock_saved_flush latency) i.long_latency))),
        )
  ]

  -- The instruction of the datapath does what it does without one in the long unit.
  pub clock_lem :
      (latency : ℕ) (i : Inputs)
      → IsQuiet i
      → (o0 : Outputs) × (clock executor last_execution_stage_latency latency
            (record i { long_latency = none })
          ≡ some (clock_saved_flush latency, o0))
        × (o0.long_arithmetic_bypass ≡ none)
        × ((long : PerfInstr)
            → i.long_latency ≡ some long
            → clock executor last_execution_stage_latency latency i
              ≡ some (
                clock_saved_flush latency,
                with_long (has_flush_expired (clock_saved_flush latency)) long o0,
              ))
  unfolding clock process
  clock_lem latency i ok = elim (Option-cases i.datapath) [
    | inl bubble ↦ (
      no_outputs,
      rw (ok.quiet, bubble) refl,
      refl,
      λ long e. rw (ok.quiet, bubble, e, take_long-with_long (clock_saved_flush latency) long) refl,
    )
    | inr (instr, ready) ↦
        let (executed, processed) = process_lem i instr ok in
        (
          dispatch executed no_outputs,
          rw (ok.quiet, ready, processed no_outputs) refl,
          dispatch-long executed no_outputs,
          λ long e.
              let b = has_flush_expired (clock_saved_flush latency) in
              rw
                (
                  ok.quiet,
                  ready,
                  e,
                  take_long-with_long (clock_saved_flush latency) long,
                  processed (with_long b long no_outputs),
                  dispatch-with_long b long executed no_outputs,
                )
                refl,
        )
  ]
