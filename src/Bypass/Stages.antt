-- ===== src/Bypass/Stages.antt =====
-- Where a register is, a number of updates after an instruction that writes it was traced.
use mipt_mips.Prelude.{
  ℕ, zero, suc, ◌-◌, ◌≤◌, ◌<◌, ◌≡◌, ◌≢◌, ◌⊎◌, inl, inr, refl, true, ◌&&◌, ◌||◌, ◌==◌, ltb, leb,
  if◌then◌else◌, arith, Bool-cases, ap, sym,
}
use mipt_mips.Operation.{
  OperationType, is_load, is_unsigned_load, is_signed_load, is_partial_load, is_store,
  is_explicit_trap, is_jump, is_direct_jump, is_branch, is_common_branch, is_likely_branch,
  is_indirect_jump, is_divmult, is_conditional_move, get_accumulation_type,
}
use mipt_mips.Bypass.{
  RegisterStage, RegisterInfo, new_info, is_same_stage, advance, next_stage, set_to_writeback, inc,
  is_long_arithmetic, get_instruction_latency, update_entry, can_bypass, ready_stage_of, is_keep,
}

module _ (long_alu_latency : ℕ) where
  abbrev pub updates : ℕ → RegisterInfo → RegisterInfo
  updates zero e = e
  updates (suc n) e = update_entry long_alu_latency (updates n e)

  -- The latency and the stage after the first: of a long operation, of a jump or an access to the
  -- memory, and of any other.
  abbrev pub Course : ℕ → ℕ → Type 0
  Course latency next =
      (latency ≡ long_alu_latency) × (next ≡ 1)
      ⊎ (latency ≡ 2) × (next ≡ 253)
      ⊎ (latency ≡ 1) × (next ≡ 254)

  pub course :
      (o : OperationType) (s : RegisterStage)
      → Course (get_instruction_latency long_alu_latency o) (next_stage o s).value
  unfolding get_instruction_latency next_stage is_load is_unsigned_load is_signed_load
      is_partial_load is_store is_explicit_trap is_jump is_direct_jump is_branch is_common_branch
      is_likely_branch is_indirect_jump is_divmult
  course o s = ground arith

  -- What `update` does to a traced entry.
  pub moved :
      (e : RegisterInfo)
      → e.is_traced ≡ true
      → e.current_stage.value ≢ 254
      → ((update_entry long_alu_latency e).current_stage ≡ advance long_alu_latency e)
        × ((update_entry long_alu_latency e).is_bypassible ≡ (
            if is_same_stage (advance long_alu_latency e) e.ready_stage.value
            then true
            else e.is_bypassible))
        × ((update_entry long_alu_latency e).ready_stage ≡ e.ready_stage)
        × ((update_entry long_alu_latency e).next_stage_after_first_execution_stage
            ≡ e.next_stage_after_first_execution_stage)
        × ((update_entry long_alu_latency e).is_traced ≡ true)
  unfolding update_entry is_same_stage
  moved e traced h = ground arith

  pub finished :
      (e : RegisterInfo)
      → e.is_traced ≡ true
      → e.current_stage.value ≡ 254
      → update_entry long_alu_latency e ≡ new_info
  unfolding update_entry is_same_stage
  finished e traced h = ground arith

  pub advance_lem :
      2 ≤ long_alu_latency
      → long_alu_latency < 254
      → (e : RegisterInfo) → e.current_stage.value < 254
      → (advance long_alu_latency e).value ≡ (
          if e.current_stage.value == 0
          then e.next_stage_after_first_execution_stage.value
          else if (suc e.current_stage.value == long_alu_latency) || (e.current_stage.value == 253)
          then 254
          else suc e.current_stage.value)
  unfolding advance is_same_stage set_to_writeback inc
  advance_lem low high e h = ground arith

  -- The stage `n` updates after the trace, for a latency and the stage after the first.
  abbrev pub stage_at : ℕ → ℕ → ℕ → ℕ
  stage_at latency next n =
      if n == 0
      then 0
      else if ltb n latency
      then (if next == 253 then 253 else n)
      else if n == latency
      then 254
      else 255

  -- An entry on its way to the register file.
  pub record OnCourse (start e : RegisterInfo) (stage : ℕ) : Type 0 where
    pub traced : e.is_traced ≡ true
    pub current : e.current_stage.value ≡ stage
    pub next :
        e.next_stage_after_first_execution_stage ≡ start.next_stage_after_first_execution_stage
    pub ready : e.ready_stage ≡ start.ready_stage

  module _ (low : 2 ≤ long_alu_latency) (high : long_alu_latency < 254) where
    stage_at-step :
        (latency next n : ℕ)
        → Course latency next
        → n < latency
        → (if stage_at latency next n == 0
            then next
            else if (suc (stage_at latency next n) == long_alu_latency)
                || (stage_at latency next n == 253)
            then 254
            else suc (stage_at latency next n))
          ≡ stage_at latency next (suc n)
    stage_at-step latency next n (inl (h, h')) below = ground arith
    stage_at-step latency next n (inr (inl (h, h'))) below = ground arith
    stage_at-step latency next n (inr (inr (h, h'))) below = ground arith

    pub stage_at-lt :
        (latency next n : ℕ) → Course latency next → n < latency → stage_at latency next n < 254
    stage_at-lt latency next n (inl (h, h')) below = ground arith
    stage_at-lt latency next n (inr (inl (h, h'))) below = ground arith
    stage_at-lt latency next n (inr (inr (h, h'))) below = ground arith

    module _ (start : RegisterInfo) (latency : ℕ)
        (c : Course latency start.next_stage_after_first_execution_stage.value)
        (traced : start.is_traced ≡ true) (first : start.current_stage.value ≡ 0) where
      abbrev next_value : ℕ
      next_value = start.next_stage_after_first_execution_stage.value

      pub updates-OnCourse :
          (n : ℕ) → n ≤ latency → OnCourse start (updates n start) (stage_at latency next_value n)
      updates-OnCourse zero h = record {
        traced = traced;
        current = first;
        next = refl;
        ready = refl;
      }
      updates-OnCourse (suc n) h =
          let before = updates-OnCourse n (omega arith) in
          let small = stage_at-lt latency next_value n c (omega arith) in
          let value_small : (updates n start).current_stage.value < 254 = rw before.current small in
          let step = moved (updates n start) before.traced (omega arith) in
          let value = advance_lem low high (updates n start) value_small in
          record {
            traced = step.4;
            current =
                rw (step.0, value, before.current, before.next)
                  (stage_at-step latency next_value n c (omega arith));
            next = rw (step.3) before.next;
            ready = rw (step.2) before.ready;
          }

      pub updates-new_info : (n : ℕ) → latency < n → updates n start ≡ new_info
      unfolding update_entry
      updates-new_info zero h = absurd (omega arith)
      updates-new_info (suc n) h = elim (Bool-cases (n == latency)) [
        | inl last ↦
            let e : n ≡ latency = ground arith in
            let before = updates-OnCourse n (omega arith) in
            finished (updates n start) before.traced (rw before.current (ground arith))
        | inr past ↦ ap (update_entry long_alu_latency) (updates-new_info n (ground arith))
      ]

      pub is_bypassible-updates :
          (t : ℕ)
          → ((k : ℕ)
              → k ≤ latency
              → (stage_at latency next_value k == start.ready_stage.value) ≡ (k == t))
          → (n : ℕ) → n ≤ latency
          → (updates n start).is_bypassible ≡ (start.is_bypassible || (ltb 0 t && leb t n))
      unfolding is_same_stage
      is_bypassible-updates t at zero h = ground arith
      is_bypassible-updates t at (suc n) h =
          let before = updates-OnCourse n (omega arith) in
          let after = updates-OnCourse (suc n) h in
          let small = stage_at-lt latency next_value n c (omega arith) in
          let value_small : (updates n start).current_stage.value < 254 = rw before.current small in
          let step = moved (updates n start) before.traced (omega arith) in
          let same : is_same_stage (advance long_alu_latency (updates n start))
                (updates n start).ready_stage.value
              ≡ (suc n == t) =
            rw (sym step.0, after.current, before.ready) (at (suc n) h) in
          rw (step.1, same, is_bypassible-updates t at n (omega arith)) (ground arith)

  unfoldable pub ready_time : OperationType → ℕ
  unfolding can_bypass is_long_arithmetic get_instruction_latency
  ready_time o =
      if can_bypass o
      then (if is_long_arithmetic o
          then long_alu_latency - 1
          else if is_jump o || is_load o
          then 1
          else 0)
      else suc (get_instruction_latency long_alu_latency o)

  pub ready_lem :
      2 ≤ long_alu_latency
      → long_alu_latency < 254
      → (o : OperationType) (s r : RegisterStage) (k : ℕ)
      → k ≤ get_instruction_latency long_alu_latency o
      → (stage_at (get_instruction_latency long_alu_latency o) (next_stage o s).value k
          == (ready_stage_of long_alu_latency o r).value)
        ≡ (k == ready_time o)
  unfolding ready_stage_of ready_time is_conditional_move is_keep get_accumulation_type
      get_instruction_latency next_stage is_load is_unsigned_load is_signed_load is_partial_load
      is_store is_explicit_trap is_jump is_direct_jump is_branch is_common_branch is_likely_branch
      is_indirect_jump is_divmult
  ready_lem low high o s r k h = ground arith
