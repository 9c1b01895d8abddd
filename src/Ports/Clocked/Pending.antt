-- ===== src/Ports/Clocked/Pending.antt =====
-- A read port represents the list of its entries, each with the cycle to read it in.
use mipt_mips.Prelude.{
  ℕ, zero, suc, ◌+◌, ◌^◌, ◌%◌, ◌≤◌, ◌<◌, ◌≡◌, refl, true, false, Option, none, some, List, [], ◌∷◌,
  ◌++◌, length, ◌==◌, ltb, if◌then◌else◌, arith, Bool-cases, inl, inr,
}
use native.Mathlib.Nat.{mod-eq_of_lt}
use mipt_mips.Ports.{PortQueue, empty, front, pop, full}
use mipt_mips.Ports.Fifo.{Represents, emplace-Represents, pop-Represents, empty_iff, full_iff}
use mipt_mips.Ports.Clocked.{
  ReadPort, cleanup_loop, cleanup_stale_data, front_is_for, is_ready, pop_front, read, emplace_data,
}

module _ {A : Type 0} where
  -- The entries that are not stale in a cycle.
  abbrev pub drop_stale : ℕ → List (A × ℕ) → List (A × ℕ)
  drop_stale cycle [] = []
  drop_stale cycle (e ∷ es) =
      let rest = drop_stale cycle es in if ltb e.1 cycle then rest else e ∷ es

  pub length-drop_stale : (cycle : ℕ) (es : List (A × ℕ)) → length (drop_stale cycle es) ≤ length es
  length-drop_stale cycle [] = omega arith
  length-drop_stale cycle (e ∷ es) = ground (arith, length-drop_stale cycle es)

  cleanup_loop-Represents :
      (fuel cycle : ℕ) (q : PortQueue (A × ℕ)) (es : List (A × ℕ))
      → length es ≤ fuel
      → Represents q es
      → Represents (cleanup_loop fuel cycle q) (drop_stale cycle es)
        × ((cleanup_loop fuel cycle q).capacity ≡ q.capacity)
  unfolding cleanup_loop pop
  cleanup_loop-Represents zero cycle q [] h r = (r, refl)
  cleanup_loop-Represents zero cycle q (e ∷ es) h r = absurd (omega arith)
  cleanup_loop-Represents (suc fuel) cycle q [] h r =
      let none_left : empty q ≡ true = (empty_iff [] r).1 refl in
      rw (none_left, cleanup_loop) (r, refl)
  cleanup_loop-Represents (suc fuel) cycle q (e ∷ es) h r =
      let (first, rest) = pop-Represents e es r in
      let filled : empty q ≡ false = ground (arith, (empty_iff (e ∷ es) r).0) in
      elim (Bool-cases (ltb e.1 cycle)) [
        | inl stale ↦
            rw (filled, first, stale, cleanup_loop, drop_stale)
              (cleanup_loop-Represents fuel cycle (pop q) es (omega arith) rest)
        | inr fresh ↦ rw (filled, first, fresh, cleanup_loop, drop_stale) (r, refl)
      ]

  -- What a clean-up leaves, and that it changes neither the room nor the latency.
  pub cleanup_stale_data-Represents :
      (p : ReadPort A) (cycle : ℕ) (es : List (A × ℕ))
      → Represents p.queue es
      → Represents (cleanup_stale_data p cycle).queue (drop_stale cycle es)
        × ((cleanup_stale_data p cycle).queue.capacity ≡ p.queue.capacity)
  unfolding cleanup_stale_data
  cleanup_stale_data-Represents p cycle es r =
      cleanup_loop-Represents p.queue.occupied cycle p.queue es (omega (arith, r.counted)) r

  -- With room for it, a value written in a cycle is the last of the entries that are not stale, to be
  -- read after the latency of the port.
  pub emplace_data-Represents :
      (p : ReadPort A) (what : A) (cycle : ℕ) (es : List (A × ℕ))
      → Represents p.queue es
      → length (drop_stale cycle es) < p.queue.capacity
      → cycle + p.latency < 2 ^ 64
      → Represents
          (emplace_data p what cycle).queue
          (drop_stale cycle es ++ (what, cycle + p.latency) ∷ [])
  unfolding emplace_data
  emplace_data-Represents p what cycle es r room small =
      let (clean, same) = cleanup_stale_data-Represents p cycle es r in
      let due : (cycle + p.latency) % 2 ^ 64 ≡ cycle + p.latency = mod-eq_of_lt small in
      let not_full : full (cleanup_stale_data p cycle).queue ≡ false =
        ground (arith, full_iff _ clean, same) in
      rw due (emplace-Represents (drop_stale cycle es) (what, cycle + p.latency) clean not_full)

  -- The answer of `read` for the list of entries, with the list that is left.
  abbrev pub read_list : ℕ → List (A × ℕ) → Option (A × List (A × ℕ))
  read_list cycle es = elim (drop_stale cycle es) [
    | [] ↦ none
    | e ∷ rest ↦ if e.1 == cycle then some (e.0, rest) else none
  ]

  -- A read and its answer for the list agree: both throw, or both give the value and what is left.
  pub data Agree : Option (A × ReadPort A) → Option (A × List (A × ℕ)) → Type 0 where
    thrown : Agree none none
    given :
        (v : A) (p : ReadPort A) (es : List (A × ℕ))
        → Represents p.queue es
        → Agree (some (v, p)) (some (v, es))

  front_is_for_none :
      {q : PortQueue (A × ℕ)} (cycle : ℕ) → Represents q [] → front_is_for q cycle ≡ false
  unfolding front_is_for
  front_is_for_none cycle r =
      let none_left = (empty_iff [] r).1 refl in rw (none_left, front_is_for) refl

  front_is_for_first :
      {q : PortQueue (A × ℕ)} {e : A × ℕ} {es : List (A × ℕ)} (cycle : ℕ)
      → Represents q (e ∷ es)
      → front_is_for q cycle ≡ (e.1 == cycle)
  unfolding front_is_for
  front_is_for_first {q = q} {e = e} {es = es} cycle r =
      let filled : empty q ≡ false = ground (arith, (empty_iff (e ∷ es) r).0) in
      rw (filled, (pop-Represents e es r).0, front_is_for) refl

  pop_front_first :
      (p : ReadPort A) {e : A × ℕ}
      → front p.queue ≡ some e
      → pop_front p ≡ some (e.0, record p { queue = pop p.queue })
  unfolding pop_front
  pop_front_first p first = rw (first, pop_front) refl

  -- A read gives the first entry that is not stale if it is for this cycle, and throws otherwise.
  pub read-Agree :
      (p : ReadPort A) (cycle : ℕ) (es : List (A × ℕ))
      → Represents p.queue es
      → Agree (read p cycle) (read_list cycle es)
  unfolding read is_ready
  read-Agree p cycle es r = go (drop_stale cycle es) (cleanup_stale_data-Represents p cycle es r).0
    where
      go :
          (kept : List (A × ℕ))
          → Represents (cleanup_stale_data p cycle).queue kept
          → Agree
              (read p cycle)
              (elim kept [ [] ↦ none | e ∷ rest ↦ if e.1 == cycle then some (e.0, rest) else none ])
      go [] clean = rw (front_is_for_none cycle clean) thrown
      go (e ∷ rest) clean =
          let (first, left) = pop-Represents e rest clean in
          elim (Bool-cases (e.1 == cycle)) [
            | inl here ↦
                rw
                  (
                    front_is_for_first cycle clean,
                    here,
                    pop_front_first (cleanup_stale_data p cycle) first,
                  )
                  (given e.0 _ rest left)
            | inr other ↦ rw (front_is_for_first cycle clean, other) thrown
          ]
