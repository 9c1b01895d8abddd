-- ===== src/FuncSim/Runs.antt =====
-- A run of the functional simulator does not depend on the cache of decoded instructions.
use mipt_mips.Prelude.{
  ℕ, zero, suc, ◌-◌, ◌^◌, ◌<◌, ◌≡◌, ◌≢◌, refl, Bool, true, false, Option, none, some, get_elem?,
  ◌>>=◌, ◌⊎◌, inl, inr, Option-cases, Holds,
}
use mipt_mips.Endian.{Endian}
use mipt_mips.Trap.{Trap, same_trap}
use mipt_mips.Operation.{Datapath}
use mipt_mips.Memory.Access.{FuncMemory}
use mipt_mips.InstrCache.{HashTable, new_cache}
use mipt_mips.InstrCache.InstrMemory.{fetch_instr}
use mipt_mips.InstrCache.Fetch.{IsDecoded, fetch_cached_lem, new_cache-IsDecoded}
use mipt_mips.FuncSim.Machine.{
  FuncIsa, Outcome, Machine, World, direct, cached, step, step_instr, finish_round, round, run_loop,
  run, reset_nops,
}

module _ {ℓ} (f : FuncMemory) (i : FuncIsa) {K : Type ℓ}
    (kernel : K → Machine f i → K × Machine f i × Outcome)
    (driver : Datapath → Machine f i → Option (Machine f i × Trap)) (endian : Endian)
    (h : HashTable) where
  abbrev pub Cached : Type ℓ
  Cached = World f i (cached f i h endian).State K

  abbrev pub Direct : Type ℓ
  Direct = World f i (direct f i endian).State K

  -- The world without the cache.
  abbrev pub forget : Cached → Direct
  forget x = record { imem_state = tt; machine = x.machine; kernel_state = x.kernel_state }

  abbrev pub forget_result : Option (Cached × Trap) → Option (Direct × Trap)
  forget_result o = o >>= λ (x, trap). some (forget x, trap)

  abbrev cached_round : Cached → Option (Cached × Trap)
  cached_round = round f i kernel driver endian (cached f i h endian)

  abbrev direct_round : Direct → Option (Direct × Trap)
  direct_round = round f i kernel driver endian (direct f i endian)

  -- No instruction of the run without a cache is fetched at the last address.
  unfoldable pub Avoids : ℕ → Direct → Type 0
  Avoids zero x = Unit
  Avoids (suc left) x =
      Holds (λ pc. pc ≢ 2 ^ 64 - 1) (get_elem? x.machine.sequencer.pc 0)
      × Holds (λ (x', trap). Avoids left x') (direct_round x)

  -- Both rounds fail, or both give the same world.
  Agree : ℕ → Option (Cached × Trap) → Option (Direct × Trap) → Type ℓ
  Agree capacity o d =
      ((o ≡ none) × (d ≡ none))
      ⊎ ((x : Cached) × (trap : Trap) × (o ≡ some (x, trap))
          × (d ≡ some (forget x, trap))
          × IsDecoded f i.isa h endian capacity x.imem_state)

  -- The end of a round, after the step.
  abbrev tail_of :
      {S : Type 0} → K → Option (S × Machine f i × Datapath) → Option (World f i S K × Trap)
  tail_of k o = o >>= λ (s, m, d). finish_round f i kernel driver k m d >>= λ (k', m', trap).
      some (record { imem_state = s; machine = m'; kernel_state = k' }, trap)

  -- The two rounds go on alike after the fetch.
  agree_lem :
      (capacity : ℕ) (c : (cached f i h endian).State) (k : K)
      → IsDecoded f i.isa h endian capacity c
      → (o : Option (Machine f i × Datapath))
      → Agree capacity
          (tail_of k (o >>= λ (m, d). some (c, m, d)))
          (tail_of k (o >>= λ (m, d). some (tt {0}, m, d)))
  unfolding Agree
  agree_lem capacity c k ok none = inl (refl, refl)
  agree_lem capacity c k ok (some (m, d)) =
      elim (Option-cases (finish_round f i kernel driver k m d)) [
        | inl fails ↦ inl (rw fails refl, rw fails refl)
        | inr ((k', m', trap), e) ↦ inr (
          record { imem_state = c; machine = m'; kernel_state = k' },
          trap,
          rw e refl,
          rw e refl,
          ok,
        )
      ]

  Agree-none : (capacity : ℕ) → Agree capacity none none
  unfolding Agree
  Agree-none capacity = inl (refl, refl)

  round_lem :
      (capacity : ℕ) (x : Cached)
      → 0 < capacity
      → IsDecoded f i.isa h endian capacity x.imem_state
      → Holds (λ pc. pc ≢ 2 ^ 64 - 1) (get_elem? x.machine.sequencer.pc 0)
      → Agree capacity (cached_round x) (direct_round (forget x))
  unfolding round step
  round_lem capacity x pos ok low = elim (Option-cases (get_elem? x.machine.sequencer.pc 0)) [
    | inl missing ↦ rw missing (Agree-none capacity)
    | inr (pc, at) ↦
        let (c', fetched, ok') =
          fetch_cached_lem f i.isa h endian capacity x.imem_state pc x.machine.memory pos ok
            (rw at at low) in
        rw (at, fetched)
          (agree_lem capacity c' x.kernel_state ok'
            (step_instr f i endian x.machine (fetch_instr f i.isa endian pc x.machine.memory)))
  ]

  continue_lem :
      (b : Bool) (x : Cached) (trap : Trap) (l : Option (Cached × Trap))
      (m : Option (Direct × Trap))
      → forget_result l ≡ m
      → forget_result (elim b [ true ↦ l | false ↦ some (x, trap) ])
        ≡ elim b [ true ↦ m | false ↦ some (forget x, trap) ]
  continue_lem true x trap l m e = e
  continue_lem false x trap l m e = refl

  run_loop_lem :
      (capacity left : ℕ) (x : Cached)
      → 0 < capacity
      → IsDecoded f i.isa h endian capacity x.imem_state
      → Avoids left (forget x)
      → forget_result (run_loop f i kernel driver endian (cached f i h endian) left x)
        ≡ run_loop f i kernel driver endian (direct f i endian) left (forget x)
  unfolding run_loop Avoids Agree
  run_loop_lem capacity zero x pos ok avoids = refl
  run_loop_lem capacity (suc left) x pos ok avoids = elim (round_lem capacity x pos ok avoids.0) [
    | inl (fails, also) ↦ rw (fails, also) refl
    | inr (x', trap, one, other, ok') ↦
        rw (one, other)
          (continue_lem (same_trap trap Trap.no_trap) x' trap _ _
            (run_loop_lem capacity left x' pos ok' (rw other at avoids.1)))
  ]

  -- With a place at least in the cache, a run from a new cache ends as the same run without a cache
  -- does, with the same trap, machine and kernel or with an exception, if the latter fetches no
  -- instruction at the last address: also if the program stores into its own code.
  pub run-new_cache :
      (capacity left : ℕ) (m : Machine f i) (k : K)
      → 0 < capacity
      → Avoids left (record { imem_state = tt; machine = reset_nops f i m; kernel_state = k })
      → forget_result (
          run f i kernel driver endian (cached f i h endian) left (record {
            imem_state = new_cache h i.isa.Instr capacity;
            machine = m;
            kernel_state = k;
          }))
        ≡ run f i kernel driver endian
            (direct f i endian)
            left
            (record { imem_state = tt; machine = m; kernel_state = k })
  unfolding run
  run-new_cache capacity left m k pos avoids =
      run_loop_lem capacity left
        (record {
          imem_state = new_cache h i.isa.Instr capacity;
          machine = reset_nops f i m;
          kernel_state = k;
        })
        pos (new_cache-IsDecoded f i.isa h endian capacity) avoids
