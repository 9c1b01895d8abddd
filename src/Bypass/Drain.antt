-- ===== src/Bypass/Drain.antt =====
-- A unit that calls have led to goes back to a new one, by a flush or by updates.
use mipt_mips.Prelude.{
  ℕ, zero, suc, ◌≤◌, ◌<◌, ◌≡◌, refl, inl, inr, some, false, List, ◌∷◌, All, All-map,
  get_elem?-replicate, All-weaken, All-replicate-length, length, replicate, arith, ap, ◌∙◌,
  length-map,
}
use mipt_mips.RegisterFile.{RegisterClass}
use mipt_mips.Bypass.{RegisterInfo, new_info, is_same_stage, update_entry}
use mipt_mips.Bypass.Unit.{
  Instr, DataBypass, new_bypass, update, handle_flush, set_bandwidth, is_stall, is_in_rf,
  is_bypassible_src, get_entry,
}
use mipt_mips.Bypass.Scoreboard.{
  IsWellFormed, rank, update_entry-IsWellFormed, IsCoherent, Reach, Reach-IsCoherent,
  handle_flush-entries, update-IsCoherent,
}

abbrev pub cycles : ℕ → ℕ → DataBypass → DataBypass
cycles long_alu_latency zero u = u
cycles long_alu_latency (suc n) u = cycles long_alu_latency n (update long_alu_latency u)

module _ (long_alu_latency : ℕ) (low : 2 ≤ long_alu_latency) (high : long_alu_latency < 254)
    (c : RegisterClass) where
  settled :
      (u : DataBypass)
      → All (λ e. e ≡ new_info) u.scoreboard
      → length u.scoreboard ≡ c.max_reg
      → u.operation_latency ≡ 0
      → u ≡ set_bandwidth (new_bypass c) u.writeback_bandwidth
  unfolding set_bandwidth new_bypass
  settled u h sized idle =
      let entries =
        All-replicate-length u.scoreboard new_info h ∙ ap (λ n. replicate n new_info) sized in
      λ i. record {
        scoreboard = entries i;
        operation_latency = idle i;
        writeback_bandwidth = u.writeback_bandwidth;
      }

  -- With a latency of the long unit from 2 to 253, a flush of a unit that calls have led to leaves
  -- the new unit, with the bandwidth that was set.
  pub handle_flush_lem :
      (u : DataBypass)
      → Reach long_alu_latency c u
      → handle_flush u ≡ set_bandwidth (new_bypass c) u.writeback_bandwidth
  unfolding handle_flush
  handle_flush_lem u r =
      let h = Reach-IsCoherent long_alu_latency c low high r in
      settled (handle_flush u) (handle_flush-entries long_alu_latency c low high u h)
        (length-map u.scoreboard _ ∙ h.sized) refl

  -- All ranks are at most `n`.
  abbrev Ranked : ℕ → RegisterInfo → Type 0
  Ranked n e = IsWellFormed long_alu_latency e × (rank long_alu_latency e ≤ n)

  Ranked-update :
      (u : DataBypass) (n : ℕ)
      → All (Ranked (suc n)) u.scoreboard
      → All (Ranked n) (update long_alu_latency u).scoreboard
  unfolding update
  Ranked-update u n h =
      All-map _ _ (update_entry long_alu_latency) u.scoreboard
        (λ e r.
          let next = update_entry-IsWellFormed long_alu_latency low high e r.0 in
          (next.0, omega (arith, r.1, next.1)))
        h

  reset_of_rank : (e : RegisterInfo) → Ranked 0 e → e ≡ new_info
  reset_of_rank e (inl h, low_rank) = h
  reset_of_rank e (inr h, low_rank) = absurd (ground arith)

  cycles-settled :
      (n : ℕ) (u : DataBypass)
      → IsCoherent long_alu_latency c u
      → All (Ranked n) u.scoreboard
      → u.operation_latency ≤ n
      → cycles long_alu_latency n u ≡ set_bandwidth (new_bypass c) u.writeback_bandwidth
  unfolding update
  cycles-settled zero u h ranked idle =
      settled u (All-weaken _ _ u.scoreboard reset_of_rank ranked) h.sized (omega arith)
  cycles-settled (suc n) u h ranked idle =
      cycles-settled n (update long_alu_latency u)
        (update-IsCoherent long_alu_latency c low high u h) (Ranked-update u n ranked)
        (ground arith)

  -- With a latency of the long unit from 2 to 253, one update more than that latency brings every
  -- unit that calls have led to back to the new unit, with the bandwidth that was set.
  pub cycles_lem :
      (u : DataBypass)
      → Reach long_alu_latency c u
      → cycles long_alu_latency (suc long_alu_latency) u
        ≡ set_bandwidth (new_bypass c) u.writeback_bandwidth
  cycles_lem u r =
      let h = Reach-IsCoherent long_alu_latency c low high r in
      cycles-settled (suc long_alu_latency) u h
        (All-weaken _ _ u.scoreboard (λ e well. (well, ground arith)) h.entries)
        (omega (arith, h.bounded))

  not-is_stall :
      (wb_bandwidth : ℕ) (instr : Instr) (src0 src1 : ℕ) (rest : List ℕ)
      → instr.src ≡ src0 ∷ src1 ∷ rest
      → src0 < c.max_reg
      → src1 < c.max_reg
      → is_stall long_alu_latency (set_bandwidth (new_bypass c) wb_bandwidth) instr ≡ some false
  unfolding is_stall is_in_rf is_bypassible_src get_entry set_bandwidth new_bypass is_same_stage
  not-is_stall wb_bandwidth instr src0 src1 rest e inside0 inside1 =
      rw
        (
          e,
          get_elem?-replicate c.max_reg src0 new_info inside0,
          get_elem?-replicate c.max_reg src1 new_info inside1,
        )
        (ground arith)

  -- With a latency of the long unit from 2 to 253, an instruction whose sources are registers of the
  -- file is not stalled one update more than that latency after any calls.
  pub stall_ends :
      (u : DataBypass) (instr : Instr) (src0 src1 : ℕ) (rest : List ℕ)
      → Reach long_alu_latency c u
      → instr.src ≡ src0 ∷ src1 ∷ rest
      → src0 < c.max_reg
      → src1 < c.max_reg
      → is_stall long_alu_latency (cycles long_alu_latency (suc long_alu_latency) u) instr
        ≡ some false
  stall_ends u instr src0 src1 rest r e inside0 inside1 =
      rw (cycles_lem u r)
        (not-is_stall u.writeback_bandwidth instr src0 src1 rest e inside0 inside1)
