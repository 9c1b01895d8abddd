-- ===== src/FuncSim.antt =====
-- func_sim/func_sim.cpp: the program counter, the delay slots and the counter of NOPs. `none` is an
-- exception: `array.at` out of range, or `BearingLost`.
pub mod DelaySlots
pub mod Machine
pub mod Runs
pub mod Drivers
pub mod Handler
pub mod Vector
use mipt_mips.Prelude.{
  ℕ, zero, suc, ◌+◌, ◌-◌, Bool, true, false, ◌&&◌, Option, none, some, List, [], ◌∷◌, ltb, ◌==◌,
  if◌then◌else◌, get_elem?, set, length, ◌>>=◌,
}
use mipt_mips.Prelude.Word.{add_word}
use mipt_mips.Operation.{Datapath}

pub record Sequencer : Type 0 where
  pub pc : List ℕ
  pub delayed_slots : ℕ
  pub nops_in_a_row : ℕ

unfoldable pub store_at : List ℕ → ℕ → ℕ → Option (List ℕ)
store_at pc i value = if ltb i (length pc) then some (set pc i value) else none

-- The first loop of `update_pc`, with the rounds left and the round.
unfoldable pub fill_slots : ℕ → ℕ → ℕ → List ℕ → Option (List ℕ)
unfolding store_at
fill_slots zero i current_pc pc = some pc
fill_slots (suc n) i current_pc pc =
    store_at pc i (add_word 64 current_pc 4) >>= fill_slots n (suc i) (add_word 64 current_pc 4)

-- The second loop.
unfoldable pub shift_slots : ℕ → ℕ → List ℕ → Option (List ℕ)
unfolding store_at
shift_slots zero i pc = some pc
shift_slots (suc n) i pc = do
  next ← get_elem? pc (suc i)
  stored ← store_at pc i next
  shift_slots n (suc i) stored

-- The end of `update_pc`, after the jump target is stored.
unfoldable pub finish_update : Datapath → Sequencer → List ℕ → Option Sequencer
unfolding shift_slots
finish_update instr s stored =
    if ltb 0 s.delayed_slots
    then (shift_slots s.delayed_slots 0 stored >>= λ shifted.
        some (record s { pc = shifted; delayed_slots = s.delayed_slots - 1 }))
    else some (record s { pc = stored; delayed_slots = instr.delayed_slots })

unfoldable pub update_pc : Datapath → Sequencer → Option Sequencer
unfolding fill_slots store_at finish_update
update_pc instr s = do
  current_pc ← get_elem? s.pc 0
  filled ← fill_slots instr.delayed_slots 0 current_pc s.pc
  stored ← store_at filled instr.delayed_slots instr.new_pc
  finish_update instr s stored

-- For an instruction that is a NOP or not.
unfoldable pub update_and_check_nop_counter : Bool → Sequencer → Option Sequencer
update_and_check_nop_counter is_nop s =
    let nops = if is_nop then add_word 64 s.nops_in_a_row 1 else 0 in
    if ltb 10 nops then none else some (record s { nops_in_a_row = nops })
