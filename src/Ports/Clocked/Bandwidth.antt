-- ===== src/Ports/Clocked/Bandwidth.antt =====
-- How many writes a port takes in a cycle.
use mipt_mips.Prelude.{
  ℕ, zero, suc, ◌+◌, ◌-◌, ◌^◌, ◌≤◌, ◌<◌, ◌≡◌, refl, Bool, true, false, none, some, ltb, leb, ◌==◌,
  if◌then◌else◌, arith, Bool-cases, inl, inr, ◌∙◌, ◌%◌,
}
use native.Mathlib.Nat.{mod-eq_of_lt}
use mipt_mips.Ports.Clocked.{WritePort, increment_write_counter}

module _ {A : Type 0} where
  -- Whether `n` writes in a cycle are all accepted.
  abbrev pub accepted : ℕ → ℕ → WritePort A → Bool
  accepted zero cycle p = true
  accepted (suc n) cycle p = elim (increment_write_counter p cycle) [
    | none ↦ false
    | some p' ↦ accepted n cycle p'
  ]

  increment_again :
      (cycle : ℕ) (p : WritePort A)
      → p.last_cycle ≡ cycle
      → p.write_counter + 1 < 2 ^ 32
      → increment_write_counter p cycle ≡ (
          if ltb p.bandwidth (p.write_counter + 1)
          then none
          else some (record p { write_counter = p.write_counter + 1; last_cycle = cycle }))
  unfolding increment_write_counter
  increment_again cycle p same small =
      let now : (p.last_cycle == cycle) ≡ true = ground arith in
      let e : (p.write_counter + 1) % 2 ^ 32 ≡ p.write_counter + 1 = mod-eq_of_lt small in
      rw (now, e) refl

  increment_first :
      (cycle : ℕ) (p : WritePort A)
      → (p.last_cycle == cycle) ≡ false
      → increment_write_counter p cycle ≡ some (record p { write_counter = 0; last_cycle = cycle })
  unfolding increment_write_counter
  increment_first cycle p other =
      let enough : ltb p.bandwidth 0 ≡ false = ground arith in rw (other, enough) refl

  accepted_again :
      (n cycle : ℕ) (p : WritePort A)
      → p.last_cycle ≡ cycle
      → p.write_counter ≤ p.bandwidth
      → p.bandwidth < 2 ^ 32 - 1
      → accepted n cycle p ≡ leb (p.write_counter + n) p.bandwidth
  accepted_again zero cycle p same low small = ground arith
  accepted_again (suc n) cycle p same low small =
      let step = increment_again cycle p same (omega arith) in
      elim (Bool-cases (ltb p.bandwidth (p.write_counter + 1))) [
        | inl over ↦ rw (step, over, accepted) (ground arith)
        | inr under ↦
            rw (step, under, accepted)
              (accepted_again n cycle
                  (record p { write_counter = p.write_counter + 1; last_cycle = cycle }) refl
                  (ground arith) small
                ∙ ground arith)
      ]

  -- A port with a bandwidth below 2^32 - 1 takes one write more than its bandwidth in a cycle after
  -- the one of its last write, and in the cycle of its last write what the counter leaves.
  pub accepted_lem :
      (n cycle : ℕ) (p : WritePort A)
      → p.write_counter ≤ p.bandwidth
      → p.bandwidth < 2 ^ 32 - 1
      → accepted n cycle p ≡ (
          if p.last_cycle == cycle
          then leb (p.write_counter + n) p.bandwidth
          else leb n (p.bandwidth + 1))
  accepted_lem n cycle p low small = elim (Bool-cases (p.last_cycle == cycle)) [
    | inl same ↦ rw same (accepted_again n cycle p (ground arith) low small)
    | inr other ↦ rw other (first n other)
  ]
    where
      first :
          (m : ℕ) → (p.last_cycle == cycle) ≡ false → accepted m cycle p ≡ leb m (p.bandwidth + 1)
      first zero other = ground arith
      first (suc m) other =
          rw (increment_first cycle p other, accepted)
            (accepted_again m cycle (record p { write_counter = 0; last_cycle = cycle }) refl
                (omega arith) small
              ∙ ground arith)
