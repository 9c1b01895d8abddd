-- ===== src/Bypass/Courses.antt =====
-- A register of an instruction on its way to the register file, update by update.
use mipt_mips.Prelude.{◌==◌, ℕ, suc, ◌≤◌, ◌<◌, ◌≡◌, refl, leb, arith}
use mipt_mips.Operation.{OperationType}
use mipt_mips.Bypass.{
  RegisterInfo, new_info, next_stage, get_instruction_latency, trace_new_dst_register,
  trace_new_dst2_register, is_same_stage, set_to_first_execution_stage, set_to_in_rf,
}
use mipt_mips.Bypass.Stages.{
  updates, stage_at, course, ready_time, ready_lem, updates-OnCourse, updates-new_info,
  is_bypassible-updates, Course,
}

module _ (long_alu_latency : ℕ) (low : 2 ≤ long_alu_latency) (high : long_alu_latency < 254)
    (o : OperationType) (entry : RegisterInfo) where
  abbrev latency : ℕ
  latency = get_instruction_latency long_alu_latency o

  abbrev pub dst : RegisterInfo
  dst = trace_new_dst_register long_alu_latency o entry

  abbrev pub dst2 : RegisterInfo
  dst2 = trace_new_dst2_register long_alu_latency o entry

  abbrev pub expected : ℕ → ℕ
  expected =
      stage_at long_alu_latency latency
        (next_stage o entry.next_stage_after_first_execution_stage).value

  abbrev the_course :
      Course long_alu_latency latency
        (next_stage o entry.next_stage_after_first_execution_stage).value
  the_course = course long_alu_latency o entry.next_stage_after_first_execution_stage

  -- With a latency of the long unit from 2 to 253, the first destination is in the expected stage
  -- after each update, and after one update more than the latency its entry is reset.
  pub updates-dst :
      (n : ℕ)
      → (n ≤ latency → (updates long_alu_latency n dst).current_stage.value ≡ expected n)
        × (latency < n → updates long_alu_latency n dst ≡ new_info)
  unfolding trace_new_dst_register set_to_first_execution_stage
  updates-dst n = (
    λ h. (updates-OnCourse long_alu_latency low high dst latency the_course refl refl n h).current,
    updates-new_info long_alu_latency low high dst latency the_course refl refl n,
  )

  -- It is the same for the second destination, with the same condition.
  pub updates-dst2 :
      (n : ℕ)
      → (n ≤ latency → (updates long_alu_latency n dst2).current_stage.value ≡ expected n)
        × (latency < n → updates long_alu_latency n dst2 ≡ new_info)
  unfolding trace_new_dst2_register set_to_first_execution_stage
  updates-dst2 n = (
    λ h. (updates-OnCourse long_alu_latency low high dst2 latency the_course refl refl n h).current,
    updates-new_info long_alu_latency low high dst2 latency the_course refl refl n,
  )

  never_in_rf :
      (later next k : ℕ)
      → k ≤ later
      → later ≤ 253
      → (stage_at long_alu_latency later next k == 255) ≡ (k == suc later)
  never_in_rf later next k below small = ground arith

  -- With a latency of the long unit from 2 to 253, up to the latency of the instruction the first
  -- destination can be bypassed exactly from its ready time on.
  pub is_bypassible-dst :
      (n : ℕ)
      → n ≤ latency
      → (updates long_alu_latency n dst).is_bypassible ≡ leb (ready_time long_alu_latency o) n
  unfolding trace_new_dst_register is_same_stage set_to_first_execution_stage
  is_bypassible-dst n h =
      let at =
        ready_lem long_alu_latency low high o entry.next_stage_after_first_execution_stage
          entry.ready_stage in
      let at_once : dst.is_bypassible ≡ (0 == ready_time long_alu_latency o) = at 0 (omega arith) in
      rw
        (
          is_bypassible-updates long_alu_latency low high dst latency the_course refl refl
              (ready_time long_alu_latency o) at n h,
          at_once,
        )
        (ground arith)

  -- With a latency of the long unit from 2 to 253, up to the latency of the instruction the second
  -- destination counts as bypassible exactly when its entry did before the trace.
  pub is_bypassible-dst2 :
      (n : ℕ) → n ≤ latency → (updates long_alu_latency n dst2).is_bypassible ≡ entry.is_bypassible
  unfolding trace_new_dst2_register set_to_in_rf set_to_first_execution_stage
  is_bypassible-dst2 n h =
      let small : latency ≤ 253 = ground (arith, the_course) in
      let never : (k : ℕ) → k ≤ latency → (expected k == 255) ≡ (k == suc latency) = λ k below.
        never_in_rf latency (next_stage o entry.next_stage_after_first_execution_stage).value k
          below small in
      rw
        (is_bypassible-updates long_alu_latency low high dst2 latency the_course refl refl
          (suc latency) never n h)
        (ground arith)
