-- ===== src/Bypass/Scoreboard.antt =====
-- The scoreboard over any sequence of calls: what holds of its entries, and how it drains.
use mipt_mips.Prelude.{
  ℕ, suc, ◌-◌, ◌≤◌, ◌<◌, ◌≡◌, ◌⊎◌, inl, inr, refl, true, false, Option, some, All, All-set, All-map,
  All-replicate, Holds, Holds-bind, Holds-then, Holds-some, length-set, length-map,
  length-replicate, ◌∙◌, ◌==◌, if◌then◌else◌, get_elem?, set, length, arith, ◌>>=◌,
}
use mipt_mips.Operation.{OperationType}
use mipt_mips.RegisterFile.{RegisterClass}
use mipt_mips.Bypass.{
  RegisterInfo, new_info, new_stage, update_entry, flush_entry, trace_new_dst_register,
  trace_new_dst2_register, set_to_first_execution_stage, is_same_stage, advance, set_to_writeback,
  inc, get_instruction_latency,
}
use mipt_mips.Bypass.Stages.{course}
use mipt_mips.Bypass.Unit.{
  Instr, DataBypass, new_bypass, update, handle_flush, set_bandwidth, get_entry, modify_entry,
  trace_unless_zero, trace_new_instr,
}

module _ (long_alu_latency : ℕ) where
  -- A traced register is in a stage of the pipeline, and only a traced one is.
  abbrev pub IsWellFormed : RegisterInfo → Type 0
  IsWellFormed e =
      (e ≡ new_info)
      ⊎ (e.is_traced ≡ true)
        × ((e.current_stage.value ≡ 254)
            ⊎ (e.current_stage.value ≡ 253)
            ⊎ ((0 < e.current_stage.value) × (e.current_stage.value < long_alu_latency))
            ⊎ (e.current_stage.value ≡ 0)
              × ((e.next_stage_after_first_execution_stage.value ≡ 1)
                  ⊎ (e.next_stage_after_first_execution_stage.value ≡ 253)
                  ⊎ (e.next_stage_after_first_execution_stage.value ≡ 254)))

  -- The updates that are left until the entry is reset, at most.
  abbrev pub rank : RegisterInfo → ℕ
  rank e =
      if e.is_traced
      then (if e.current_stage.value == 254
          then 1
          else if e.current_stage.value == 253
          then 2
          else suc long_alu_latency - e.current_stage.value)
      else 0

  module _ (low : 2 ≤ long_alu_latency) (high : long_alu_latency < 254) where
    pub update_entry-IsWellFormed :
        (e : RegisterInfo)
        → IsWellFormed e
        → IsWellFormed (update_entry long_alu_latency e)
          × (rank (update_entry long_alu_latency e) ≤ rank e - 1)
    unfolding update_entry advance is_same_stage set_to_writeback inc
    update_entry-IsWellFormed e h = ground arith

    flush_entry-new_info : (e : RegisterInfo) → IsWellFormed e → flush_entry e ≡ new_info
    unfolding flush_entry
    flush_entry-new_info e (inl h) = rw h refl
    flush_entry-new_info e (inr (h, h')) = rw h refl

  trace-IsWellFormed :
      (o : OperationType) (e : RegisterInfo)
      → IsWellFormed (trace_new_dst_register long_alu_latency o e)
        × IsWellFormed (trace_new_dst2_register long_alu_latency o e)
  unfolding trace_new_dst_register trace_new_dst2_register set_to_first_execution_stage
  trace-IsWellFormed o e =
      let c = course long_alu_latency o e.next_stage_after_first_execution_stage in
      ground (arith, c)

module _ (long_alu_latency : ℕ) (c : RegisterClass) where
  -- What the calls of the unit preserve.
  pub record IsCoherent (u : DataBypass) : Type 0 where
    pub entries : All (IsWellFormed long_alu_latency) u.scoreboard
    pub bounded : u.operation_latency ≤ long_alu_latency
    pub sized : length u.scoreboard ≡ c.max_reg

  -- One call that changes the unit.
  pub data Call (u : DataBypass) : DataBypass → Type 0 where
    traced :
        (instr : Instr) {u' : DataBypass}
        → trace_new_instr c long_alu_latency u instr ≡ some u'
        → Call u u'
    updated : Call u (update long_alu_latency u)
    flushed : Call u (handle_flush u)
    bandwidth_set : (wb_bandwidth : ℕ) → Call u (set_bandwidth u wb_bandwidth)

  -- The units that calls lead to from a new one.
  pub data Reach : DataBypass → Type 0 where
    created : Reach (new_bypass c)
    called : {u u' : DataBypass} → Reach u → Call u u' → Reach u'

  trace_unless_zero-IsCoherent :
      (u : DataBypass) (num : ℕ) (f : RegisterInfo → RegisterInfo)
      → ((e : RegisterInfo) → IsWellFormed long_alu_latency (f e))
      → IsCoherent u
      → Holds IsCoherent (trace_unless_zero c u num f)
  unfolding trace_unless_zero modify_entry
  trace_unless_zero-IsCoherent u num f good h =
      elim (c.is_zero num) as (λ b. Holds IsCoherent (if b then some u else modify_entry u num f)) [
        | true ↦ h
        | false ↦
            Holds-then IsCoherent (get_entry u num)
              (λ e. some (record u { scoreboard = set u.scoreboard num (f e) }))
              (λ e. record {
                entries =
                    All-set (IsWellFormed long_alu_latency) u.scoreboard num (f e) h.entries
                      (good e);
                bounded = h.bounded;
                sized = length-set u.scoreboard num (f e) ∙ h.sized;
              })
      ]

  module _ (low : 2 ≤ long_alu_latency) (high : long_alu_latency < 254) where
    get_instruction_latency-le :
        (o : OperationType) → get_instruction_latency long_alu_latency o ≤ long_alu_latency
    get_instruction_latency-le o = ground (arith, course long_alu_latency o new_stage)

    trace_new_instr-IsCoherent :
        (u : DataBypass) (instr : Instr)
        → IsCoherent u
        → Holds IsCoherent (trace_new_instr c long_alu_latency u instr)
    unfolding trace_new_instr
    trace_new_instr-IsCoherent u instr h =
        let o : OperationType = instr.operation in
        let start : IsCoherent
            (record u { operation_latency = get_instruction_latency long_alu_latency o }) =
          record { entries = h.entries; bounded = get_instruction_latency-le o; sized = h.sized } in
        let second : ℕ → DataBypass → Option DataBypass = λ dst2 first.
          trace_unless_zero c first dst2 (trace_new_dst2_register long_alu_latency o) in
        let first : ℕ → Option DataBypass = λ dst.
          trace_unless_zero c
            (record u { operation_latency = get_instruction_latency long_alu_latency o }) dst
            (trace_new_dst_register long_alu_latency o) in
        Holds-then IsCoherent (get_elem? instr.dst 0)
          (λ dst. get_elem? instr.dst 1 >>= λ dst2. first dst >>= second dst2)
          (λ dst.
            Holds-then IsCoherent (get_elem? instr.dst 1) (λ dst2. first dst >>= second dst2)
              (λ dst2.
                Holds-bind IsCoherent IsCoherent (first dst) (second dst2)
                  (trace_unless_zero-IsCoherent _ dst _
                    (λ e. (trace-IsWellFormed long_alu_latency o e).0) start)
                  (λ u' h'.
                    trace_unless_zero-IsCoherent u' dst2 _
                      (λ e. (trace-IsWellFormed long_alu_latency o e).1) h')))

    pub update-IsCoherent : (u : DataBypass) → IsCoherent u → IsCoherent (update long_alu_latency u)
    unfolding update
    update-IsCoherent u h = record {
      entries =
          All-map _ _ (update_entry long_alu_latency) u.scoreboard
            (λ e well. (update_entry-IsWellFormed long_alu_latency low high e well).0) h.entries;
      bounded = ground (arith, h.bounded);
      sized = length-map u.scoreboard (update_entry long_alu_latency) ∙ h.sized;
    }

    pub handle_flush-entries :
        (u : DataBypass) → IsCoherent u → All (λ e. e ≡ new_info) (handle_flush u).scoreboard
    unfolding handle_flush
    handle_flush-entries u h =
        All-map _ _ flush_entry u.scoreboard (flush_entry-new_info long_alu_latency low high)
          h.entries

    Call-IsCoherent : {u u' : DataBypass} → Call u u' → IsCoherent u → IsCoherent u'
    unfolding handle_flush set_bandwidth
    Call-IsCoherent {u = u} (traced instr e) h =
        Holds-some IsCoherent _ _ (trace_new_instr-IsCoherent u instr h) e
    Call-IsCoherent {u = u} updated h = update-IsCoherent u h
    Call-IsCoherent {u = u} flushed h = record {
      entries =
          All-map _ _ flush_entry u.scoreboard
            (λ e well. inl (flush_entry-new_info long_alu_latency low high e well)) h.entries;
      bounded = omega arith;
      sized = length-map u.scoreboard flush_entry ∙ h.sized;
    }
    Call-IsCoherent (bandwidth_set wb_bandwidth) h = record {
      entries = h.entries;
      bounded = h.bounded;
      sized = h.sized;
    }

    -- With a latency of the long unit from 2 to 253, in every unit that calls lead to a register is
    -- traced exactly while it is in a stage of the pipeline, no operation is waited for longer than
    -- the long one, and the size of the scoreboard is that of the register file.
    pub Reach-IsCoherent : {u : DataBypass} → Reach u → IsCoherent u
    unfolding new_bypass
    Reach-IsCoherent created = record {
      entries = All-replicate (IsWellFormed long_alu_latency) c.max_reg new_info (inl refl);
      bounded = omega arith;
      sized = length-replicate c.max_reg new_info;
    }
    Reach-IsCoherent (called r s) = Call-IsCoherent s (Reach-IsCoherent r)
