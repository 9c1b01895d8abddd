-- ===== src/Pipeline/Flushes.antt =====
-- A flush drops what is in the long unit, and nothing that enters it later.
use mipt_mips.Prelude.{
  ℕ, suc, ◌-◌, ◌≡◌, true, ◌||◌, Option, none, some, List, [], ◌∷◌, if◌then◌else◌, leb, arith, ◌>>=◌,
  ap, ◌∙◌, length, All,
}
use mipt_mips.Operation.{Datapath}
use mipt_mips.Pipeline.LongUnit.{IsQuiet, with_long, clock-some, clock_lem}
use mipt_mips.Pipeline.{PerfInstr, is_set}
use mipt_mips.Pipeline.Execute.{Inputs, Outputs, clock_saved_flush, has_flush_expired, clock}

module _ (executor : PerfInstr → Datapath → Datapath) (last_execution_stage_latency : ℕ) where
  -- The state after a list of cycles.
  unfoldable pub run_cycles : ℕ → List Inputs → Option ℕ
  run_cycles latency [] = some latency
  run_cycles latency (i ∷ rest) =
      clock executor last_execution_stage_latency latency i >>= λ (latency', o).
      run_cycles latency' rest

  saved_flush : (latency n : ℕ) → clock_saved_flush latency - n ≡ latency - suc n
  unfolding clock_saved_flush
  saved_flush latency n = ground arith

  run_cycles_lem :
      (latency : ℕ) (cycles : List Inputs)
      → All IsQuiet cycles
      → run_cycles latency cycles ≡ some (latency - length cycles)
  unfolding run_cycles
  run_cycles_lem latency [] quiet = ap some (omega arith)
  run_cycles_lem latency (i ∷ rest) quiet =
      let (o, clocked) = clock-some executor last_execution_stage_latency latency i quiet.0 in
      rw clocked (
        run_cycles_lem (clock_saved_flush latency) rest quiet.1
        ∙ ap some (saved_flush latency (length rest)))

  run_flushed :
      (latency : ℕ) (flushed : Inputs) (cycles : List Inputs)
      → (is_set flushed.flush || is_set flushed.trap) ≡ true
      → All IsQuiet cycles
      → run_cycles latency (flushed ∷ cycles) ≡ some (last_execution_stage_latency - length cycles)
  unfolding run_cycles clock
  run_flushed latency flushed cycles flush quiet =
      rw flush (run_cycles_lem last_execution_stage_latency cycles quiet)

  has_flush_expired-saved :
      (n : ℕ)
      → has_flush_expired (clock_saved_flush (last_execution_stage_latency - n))
        ≡ leb last_execution_stage_latency (suc n)
  unfolding clock_saved_flush has_flush_expired
  has_flush_expired-saved n = ground arith

  -- After a cycle with a flush and any cycles without one, an instruction that comes out of the long
  -- unit goes first to the write-back, and to its bypass, if as many cycles have passed since the
  -- flush as the unit takes, so that it entered after the flush. If fewer have passed it goes nowhere.
  -- All else that the cycle writes is as if there were no instruction in the long unit.
  pub clock-after_flush :
      (latency : ℕ) (flushed i : Inputs) (cycles : List Inputs) (instr : PerfInstr)
      → (is_set flushed.flush || is_set flushed.trap) ≡ true
      → All IsQuiet cycles
      → IsQuiet i
      → i.long_latency ≡ some instr
      → (latency' : ℕ) × (o0 : Outputs) × ((run_cycles latency (flushed ∷ cycles) >>= λ s.
            clock executor last_execution_stage_latency s (record i { long_latency = none }))
          ≡ some (latency', o0))
        × (o0.long_arithmetic_bypass ≡ none)
        × ((run_cycles latency (flushed ∷ cycles) >>= λ s.
              clock executor last_execution_stage_latency s i)
            ≡ some (
              latency',
              if leb last_execution_stage_latency (suc (length cycles))
                  then record o0 {
                    long_arithmetic_bypass =
                        some (instr.func_instr.v_dst0, instr.func_instr.v_dst1);
                    writeback_datapath = instr ∷ o0.writeback_datapath;
                  }
                  else o0,
            ))
  unfolding with_long
  clock-after_flush latency flushed i cycles instr flush quiet ok long =
      let left : ℕ = last_execution_stage_latency - length cycles in
      let (o0, clocked, none_long, with_instr) =
        clock_lem executor last_execution_stage_latency left i ok in
      let ran = run_flushed latency flushed cycles flush quiet in
      (
        clock_saved_flush left,
        o0,
        rw ran clocked,
        none_long,
        rw ran (
            with_instr instr long
            ∙ ap (λ b. some (clock_saved_flush left, with_long b instr o0))
                (has_flush_expired-saved (length cycles))),
      )
