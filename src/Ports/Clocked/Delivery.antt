-- ===== src/Ports/Clocked/Delivery.antt =====
-- A value comes out of a port after its latency, and the room that a port is given is enough.
use mipt_mips.Prelude.{
  ℕ, zero, suc, ◌+◌, ◌*◌, ◌^◌, ◌≤◌, ◌<◌, ◌≡◌, refl, true, false, some, List, [], ◌∷◌, ◌++◌, length,
  All, All-weaken, sym, ltb, ◌==◌, if◌then◌else◌, arith, Bool-cases, inl, inr,
}
use native.Mathlib.Nat.{add-mul, one-mul, suc-mul}
use mipt_mips.Ports.Fifo.{Represents}
use mipt_mips.Ports.Clocked.{ReadPort, read, emplace_data}
use mipt_mips.Ports.Clocked.Pending.{
  drop_stale, length-drop_stale, emplace_data-Represents, Agree, read_list, read-Agree,
}

module _ {A : Type 0} where
  drop_stale-all :
      (cycle : ℕ) (es es' : List (A × ℕ))
      → All (λ e. e.1 < cycle) es
      → drop_stale cycle (es ++ es') ≡ drop_stale cycle es'
  drop_stale-all cycle [] es' h = refl
  drop_stale-all cycle (e ∷ es) es' h =
      let stale : ltb e.1 cycle ≡ true = ground (arith, h.0) in
      rw stale (drop_stale-all cycle es es' h.1)

  All-drop_stale :
      (bound cycle : ℕ) (es : List (A × ℕ))
      → All (λ e. e.1 < bound) es
      → All (λ e. e.1 < bound) (drop_stale cycle es)
  All-drop_stale bound cycle [] h = tt
  All-drop_stale bound cycle (e ∷ es) h = elim (Bool-cases (ltb e.1 cycle)) [
    | inl stale ↦ rw stale (All-drop_stale bound cycle es h.1)
    | inr fresh ↦ rw fresh h
  ]

  -- With room in the queue, and every earlier value due before it, a value written in a cycle is read
  -- after the latency of the port, and nothing is left then.
  pub read-emplace_data :
      (p : ReadPort A) (what : A) (cycle : ℕ) (es : List (A × ℕ))
      → Represents p.queue es
      → length es < p.queue.capacity
      → cycle + p.latency < 2 ^ 64
      → All (λ e. e.1 < cycle + p.latency) es
      → Agree (read (emplace_data p what cycle) (cycle + p.latency)) (some (what, []))
  read-emplace_data p what cycle es r room small earlier =
      let due : ℕ = cycle + p.latency in
      let fits : length (drop_stale cycle es) < p.queue.capacity =
        omega (arith, length-drop_stale cycle es) in
      let stored = emplace_data-Represents p what cycle es r fits small in
      let answer =
        read-Agree (emplace_data p what cycle) due (drop_stale cycle es ++ (what, due) ∷ [])
          stored in
      let stale =
        drop_stale-all due (drop_stale cycle es) ((what, due) ∷ [])
          (All-drop_stale due cycle es earlier) in
      let fresh : ltb due due ≡ false = ground arith in
      let now : (due == due) ≡ true = ground arith in
      let listed : read_list due (drop_stale cycle es ++ (what, due) ∷ []) ≡ some (what, []) =
        rw (stale, fresh, now, read_list, drop_stale) refl in
      rw (sym listed) answer

  -- How many entries are due in a cycle, and the entries that are due before it.
  abbrev pub count_due : ℕ → List (A × ℕ) → ℕ
  count_due cycle [] = 0
  count_due cycle (e ∷ es) = (if e.1 == cycle then 1 else 0) + count_due cycle es

  abbrev due_before : ℕ → List (A × ℕ) → List (A × ℕ)
  due_before cycle [] = []
  due_before cycle (e ∷ es) =
      let rest = due_before cycle es in if ltb e.1 cycle then e ∷ rest else rest

  split_last :
      (last : ℕ) (es : List (A × ℕ))
      → All (λ e. e.1 < suc last) es
      → length es ≡ count_due last es + length (due_before last es)
  split_last last [] h = refl
  split_last last (e ∷ es) h = ground (arith, split_last last es h.1, h.0)

  due_before-kept :
      (low last : ℕ) (es : List (A × ℕ))
      → All (λ e. low ≤ e.1) es
      → All (λ e. low ≤ e.1) (due_before last es) × All (λ e. e.1 < last) (due_before last es)
  due_before-kept low last [] h = (tt, tt)
  due_before-kept low last (e ∷ es) h =
      let (above, below) = due_before-kept low last es h.1 in
      elim (Bool-cases (ltb e.1 last)) [
        | inl earlier ↦ rw earlier ((h.0, above), (ground arith, below))
        | inr later ↦ rw later (above, below)
      ]

  count_due-due_before :
      (cycle last : ℕ) (es : List (A × ℕ))
      → count_due cycle (due_before last es) ≤ count_due cycle es
  count_due-due_before cycle last [] = omega arith
  count_due-due_before cycle last (e ∷ es) = ground (arith, count_due-due_before cycle last es)

  length-le_mul :
      (bandwidth low span : ℕ) (es : List (A × ℕ))
      → All (λ e. low ≤ e.1) es
      → All (λ e. e.1 < low + span) es
      → ((cycle : ℕ) → count_due cycle es ≤ bandwidth)
      → length es ≤ span * bandwidth
  length-le_mul bandwidth low zero [] above below few = omega arith
  length-le_mul bandwidth low zero (e ∷ es) above below few =
      absurd (omega (arith, above.0, below.0))
  length-le_mul bandwidth low (suc span) es above below few =
      let last : ℕ = low + span in
      let inside : All (λ e. e.1 < suc last) es =
        All-weaken _ _ es (λ e h. omega (arith, h)) below in
      let (above', below') = due_before-kept low last es above in
      let rest =
        length-le_mul bandwidth low span (due_before last es) above' below'
          (λ cycle. omega (arith, few cycle, count_due-due_before cycle last es)) in
      omega (arith, split_last last es inside, rest, few last, suc-mul span bandwidth)

  -- In a port whose entries are due from this cycle on and at most the latency later, no more than the
  -- bandwidth in any cycle and fewer in the last one, there is room for one entry more.
  pub length-lt_capacity :
      (bandwidth latency cycle : ℕ) (es : List (A × ℕ))
      → All (λ e. cycle ≤ e.1) es
      → All (λ e. e.1 < suc (cycle + latency)) es
      → ((later : ℕ) → count_due later es ≤ bandwidth)
      → count_due (cycle + latency) es < bandwidth
      → length es < (latency + 1) * bandwidth
  length-lt_capacity bandwidth latency cycle es above below few room =
      let last : ℕ = cycle + latency in
      let (above', below') = due_before-kept cycle last es above in
      let rest =
        length-le_mul bandwidth cycle latency (due_before last es) above' below'
          (λ later. omega (arith, few later, count_due-due_before later last es)) in
      let all : (latency + 1) * bandwidth ≡ latency * bandwidth + bandwidth =
        rw (add-mul, one-mul) refl in
      omega (arith, split_last last es below, rest, room, all)
