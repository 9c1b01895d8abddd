-- ===== src/FuncSim/DelaySlots.antt =====
-- A jump with delay slots takes effect after them.
use mipt_mips.Prelude.{
  ℕ, zero, suc, ◌+◌, ◌-◌, ◌*◌, ◌%◌, ◌^◌, ◌<◌, ◌≤◌, ◌≡◌, refl, ap, ◌∙◌, Bool, true, ◌&&◌, Option,
  some, List, [], ◌∷◌, ltb, leb, ◌==◌, if◌then◌else◌, set, length, get_or, ◌>>=◌, arith, length-set,
  get_or-set, get_elem?-eq-get_or,
}
use mipt_mips.Operation.{Datapath}
use mipt_mips.FuncSim.{Sequencer, store_at, fill_slots, shift_slots, finish_update, update_pc}

store_at-some :
    (pc : List ℕ) (i value : ℕ) → i < length pc → store_at pc i value ≡ some (set pc i value)
unfolding store_at
store_at-some pc i value h = ground arith

fill_slots_lem :
    (n i current : ℕ) (pc : List ℕ)
    → i + n ≤ length pc
    → (filled : List ℕ) × ((fill_slots n i current pc ≡ some filled)
        × ((length filled ≡ length pc)
            × ((j : ℕ)
                → get_or filled j 0 ≡ (
                    if leb i j && ltb j (i + n)
                    then (current + 4 * (j - i + 1)) % 2 ^ 64
                    else get_or pc j 0))))
unfolding fill_slots
fill_slots_lem zero i current pc h = (pc, (refl, (refl, λ j. ground arith)))
fill_slots_lem (suc n) i current pc h =
    let next : ℕ = (current + 4) % 2 ^ 64 in
    let stored : List ℕ = set pc i next in
    let (filled, (e, (l, at))) =
      fill_slots_lem n (suc i) next stored (omega (arith, length-set pc i next)) in
    (
      filled,
      (
        rw (store_at-some pc i next (omega arith)) e,
        (
          l ∙ length-set pc i next,
          λ j. at j ∙ ground (arith, get_or-set pc i j next 0 (omega arith)),
        ),
      ),
    )

shift_slots_lem :
    (n i : ℕ) (pc : List ℕ)
    → i + n < length pc
    → (shifted : List ℕ) × ((shift_slots n i pc ≡ some shifted)
        × ((length shifted ≡ length pc)
            × ((j : ℕ)
                → get_or shifted j 0
                  ≡ (if leb i j && ltb j (i + n) then get_or pc (suc j) 0 else get_or pc j 0))))
unfolding shift_slots
shift_slots_lem zero i pc h = (pc, (refl, (refl, λ j. ground arith)))
shift_slots_lem (suc n) i pc h =
    let next : ℕ = get_or pc (suc i) 0 in
    let stored : List ℕ = set pc i next in
    let (shifted, (e, (l, at))) =
      shift_slots_lem n (suc i) stored (omega (arith, length-set pc i next)) in
    (
      shifted,
      (
        rw (get_elem?-eq-get_or pc (suc i) 0 (omega arith), store_at-some pc i next (omega arith))
            e,
        (
          l ∙ length-set pc i next,
          λ j.
              at j
              ∙ ground (
                arith,
                get_or-set pc i j next 0 (omega arith),
                get_or-set pc i (suc j) next 0 (omega arith),
              ),
        ),
      ),
    )

update_jump :
    (s : Sequencer) (instr : Datapath)
    → s.delayed_slots ≡ 0
    → instr.delayed_slots < length s.pc
    → (t : Sequencer) × ((update_pc instr s ≡ some t)
        × ((t.delayed_slots ≡ instr.delayed_slots)
            × ((length t.pc ≡ length s.pc)
                × ((j : ℕ)
                    → get_or t.pc j 0 ≡ (
                        if ltb j instr.delayed_slots
                        then (get_or s.pc 0 0 + 4 * (j + 1)) % 2 ^ 64
                        else if j == instr.delayed_slots
                        then instr.new_pc
                        else get_or s.pc j 0)))))
unfolding update_pc finish_update
update_jump s instr fresh inside =
    let slots : ℕ = instr.delayed_slots in
    let (filled, (e, (l, at))) = fill_slots_lem slots 0 (get_or s.pc 0 0) s.pc (omega arith) in
    let stored : List ℕ = set filled slots instr.new_pc in
    (
      record s { pc = stored; delayed_slots = slots },
      (
        rw
            (
              get_elem?-eq-get_or s.pc 0 0 (omega arith),
              e,
              store_at-some filled slots instr.new_pc (omega arith),
              fresh,
            )
            refl,
        (
          refl,
          (
            length-set filled slots instr.new_pc ∙ l,
            λ j. ground (arith, at j, get_or-set filled slots j instr.new_pc 0 (omega arith)),
          ),
        ),
      ),
    )

update_pending :
    (n : ℕ) (s : Sequencer) (instr : Datapath) (shifted : List ℕ)
    → s.delayed_slots ≡ suc n
    → instr.delayed_slots ≡ 0
    → 0 < length s.pc
    → shift_slots (suc n) 0 (set s.pc 0 instr.new_pc) ≡ some shifted
    → update_pc instr s ≡ some (record s { pc = shifted; delayed_slots = n })
unfolding update_pc finish_update fill_slots
update_pending n s instr shifted waiting none_of_it inside e =
    let positive : ltb 0 (suc n) ≡ true = ground arith in
    let less : suc n - 1 ≡ n = omega arith in
    rw
      (
        get_elem?-eq-get_or s.pc 0 0 inside,
        none_of_it,
        store_at-some s.pc 0 instr.new_pc inside,
        waiting,
        e,
        positive,
        less,
      )
      refl

update_ordinary :
    (n : ℕ) (s : Sequencer) (instr : Datapath)
    → s.delayed_slots ≡ suc n
    → instr.delayed_slots ≡ 0
    → suc n < length s.pc
    → (t : Sequencer) × ((update_pc instr s ≡ some t)
        × ((t.delayed_slots ≡ n)
            × ((length t.pc ≡ length s.pc)
                × ((j : ℕ) → j ≤ n → get_or t.pc j 0 ≡ get_or s.pc (suc j) 0))))
update_ordinary n s instr waiting none_of_it inside =
    let stored : List ℕ = set s.pc 0 instr.new_pc in
    let (shifted, (e, (l, at))) =
      shift_slots_lem (suc n) 0 stored (omega (arith, length-set s.pc 0 instr.new_pc)) in
    (
      record s { pc = shifted; delayed_slots = n },
      (
        update_pending n s instr shifted waiting none_of_it (omega arith) e,
        (
          refl,
          (
            l ∙ length-set s.pc 0 instr.new_pc,
            λ j h. ground (arith, at j, get_or-set s.pc 0 (suc j) instr.new_pc 0 (omega arith)),
          ),
        ),
      ),
    )

-- The instructions are executed one after the other.
abbrev pub run_pc : List Datapath → Sequencer → Option Sequencer
run_pc [] s = some s
run_pc (instr ∷ rest) s = update_pc instr s >>= run_pc rest

-- Without delay slots of their own.
abbrev pub ordinary : List Datapath → Bool
ordinary [] = true
ordinary (instr ∷ rest) = (instr.delayed_slots == 0) && ordinary rest

run_ordinary :
    (followers : List Datapath) (s : Sequencer) (f : ℕ → ℕ)
    → ordinary followers ≡ true
    → length followers ≤ s.delayed_slots
    → s.delayed_slots < length s.pc
    → ((i : ℕ) → i ≤ s.delayed_slots → get_or s.pc i 0 ≡ f i)
    → (run_pc followers s >>= λ t. some (get_or t.pc 0 0)) ≡ some (f (length followers))
run_ordinary [] s f plain few inside pending = ap some (pending 0 (omega arith))
run_ordinary (instr ∷ rest) s f plain few inside pending =
    let n : ℕ = s.delayed_slots - 1 in
    let first : instr.delayed_slots ≡ 0 = ground arith in
    let others : ordinary rest ≡ true = ground arith in
    let (t, (e, (d, (l, at)))) = update_ordinary n s instr (omega arith) first (omega arith) in
    rw e (
      run_ordinary rest t (λ i. f (suc i)) others (omega arith) (omega arith)
        (λ i h. at i (omega arith) ∙ pending (suc i) (omega arith)))

-- When no jump is pending, a jump with delay slots and then up to that many instructions without
-- delay slots run without an exception. Before as many of them as there are slots are executed, the program counter is
-- the next address in a row; after them it is the target.
pub delayed_jump :
    (s : Sequencer) (jump : Datapath) (followers : List Datapath)
    → s.delayed_slots ≡ 0
    → jump.delayed_slots < length s.pc
    → ordinary followers ≡ true
    → length followers ≤ jump.delayed_slots
    → (run_pc (jump ∷ followers) s >>= λ t. some (get_or t.pc 0 0))
      ≡ some (
          if length followers == jump.delayed_slots
          then jump.new_pc
          else (get_or s.pc 0 0 + 4 * (length followers + 1)) % 2 ^ 64)
delayed_jump s jump followers fresh inside plain few =
    let (t, (e, (d, (l, at)))) = update_jump s jump fresh inside in
    rw e (
      run_ordinary followers t (λ i. get_or t.pc i 0) plain (omega arith) (omega arith)
        (λ i h. refl)
      ∙ ground (arith, at (length followers)))
