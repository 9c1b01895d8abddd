-- ===== src/Ports/Runs.antt =====
-- Any sequence of guarded operations on a port queue is first in, first out.
use mipt_mips.Prelude.{
  ℕ, ◌≡◌, refl, true, false, Option, some, List, [], ◌∷◌, ◌++◌, length, ltb, if◌then◌else◌, arith,
  Bool-cases, inl, inr, ap,
}
use mipt_mips.Ports.{PortQueue, full, empty, front, emplace, pop}
use mipt_mips.Ports.Fifo.{Represents, emplace-Represents, pop-Represents, full_iff, empty_iff}

-- What a port does in a cycle: it writes if the queue has room, and reads if there is an element.
pub data PortOp (A : Type 0) : Type 0 where
  write : A → PortOp A
  read : PortOp A

module _ {A : Type 0} where
  -- The queue's run: the values read, with the final queue.
  unfoldable pub run : List (PortOp A) → PortQueue A → List (Option A) × PortQueue A
  run [] q = ([], q)
  run (write v ∷ ops) q = run ops (if full q then q else emplace q v)
  run (read ∷ ops) q =
      let rest = run ops (if empty q then q else pop q) in
      (if empty q then rest.0 else front q ∷ rest.0, rest.1)

  -- The same run over a list of at most `capacity` elements.
  unfoldable pub run_list : ℕ → List (PortOp A) → List A → List (Option A) × List A
  run_list capacity [] xs = ([], xs)
  run_list capacity (write v ∷ ops) xs =
      run_list capacity ops (if ltb (length xs) capacity then xs ++ v ∷ [] else xs)
  run_list capacity (read ∷ ops) [] = run_list capacity ops []
  run_list capacity (read ∷ ops) (x ∷ xs) =
      let rest = run_list capacity ops xs in (some x ∷ rest.0, rest.1)

  -- For every sequence of writes and reads, the ring buffer reads what the list reads, in order,
  -- and represents the list that is left.
  pub run-eq-run_list :
      (ops : List (PortOp A)) {q : PortQueue A} (xs : List A)
      → Represents q xs
      → ((run ops q).0 ≡ (run_list q.capacity ops xs).0)
        × Represents (run ops q).1 (run_list q.capacity ops xs).1
  unfolding run run_list emplace pop
  run-eq-run_list [] xs r = (refl, r)
  run-eq-run_list (write v ∷ ops) {q} xs r = elim (Bool-cases (full q)) [
    | inl is_full ↦
        let no_room : ltb (length xs) q.capacity ≡ false =
          ground (arith, (full_iff xs r).0 is_full) in
        rw (is_full, no_room, run, run_list) (run-eq-run_list ops xs r)
    | inr has_room ↦
        let room : ltb (length xs) q.capacity ≡ true = ground (arith, full_iff xs r, r) in
        rw (has_room, room, run, run_list)
          (run-eq-run_list ops (xs ++ v ∷ []) (emplace-Represents xs v r has_room))
  ]
  run-eq-run_list (read ∷ ops) {q} [] r =
      rw ((empty_iff [] r).1 refl, run, run_list) (run-eq-run_list ops [] r)
  run-eq-run_list (read ∷ ops) {q} (x ∷ xs) r =
      let some_left : empty q ≡ false = ground (arith, (empty_iff (x ∷ xs) r).0) in
      let (first, rest) = pop-Represents x xs r in
      let (values, left) = run-eq-run_list ops xs rest in
      rw (some_left, first, run, run_list) (ap (λ t. some x ∷ t) values, left)
