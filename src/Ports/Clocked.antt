-- ===== src/Ports/Clocked.antt =====
-- infra/ports/ports.h and timing.h: read and write ports over the ring buffer. A cycle is a word of 64
-- bits. The assertion that cycles do not decrease has no effect on the state; `none` is `PortError`.
-- A write port holds its readers, which no other port writes to.
pub mod Pending
pub mod Delivery
pub mod Bandwidth
use mipt_mips.Prelude.{
  ℕ, zero, suc, ◌+◌, ◌*◌, Bool, true, false, Option, none, some, List, [], ◌∷◌, map, ◌==◌, ltb,
  if◌then◌else◌, length,
}
use mipt_mips.Prelude.Word.{add_word}
use mipt_mips.Ports.{PortQueue, empty, front, emplace, pop, resize, new}

pub record ReadPort {ℓ} (A : Type ℓ) : Type ℓ where
  pub queue : PortQueue (A × ℕ)
  pub latency : ℕ
  pub last_cycle : ℕ

pub record WritePort {ℓ} (A : Type ℓ) : Type ℓ where
  pub destinations : List (ReadPort A)
  pub last_cycle : ℕ
  pub write_counter : ℕ
  pub bandwidth : ℕ

module _ {ℓ} {A : Type ℓ} where
  -- The loop of `cleanup_stale_data`, with fuel.
  unfoldable pub cleanup_loop : ℕ → ℕ → PortQueue (A × ℕ) → PortQueue (A × ℕ)
  cleanup_loop zero cycle q = q
  cleanup_loop (suc fuel) cycle q = elim (empty q) [
    | true ↦ q
    | false ↦ elim (front q) [
      | none ↦ q
      | some entry ↦ elim (ltb entry.1 cycle) [ true ↦ cleanup_loop fuel cycle (pop q) | false ↦ q ]
    ]
  ]

  unfoldable pub cleanup_stale_data : ReadPort A → ℕ → ReadPort A
  unfolding cleanup_loop
  cleanup_stale_data p cycle = record p {
    queue = cleanup_loop p.queue.occupied cycle p.queue;
    last_cycle = cycle;
  }

  -- Whether the first entry is for this cycle.
  unfoldable pub front_is_for : PortQueue (A × ℕ) → ℕ → Bool
  unfolding front empty
  front_is_for q cycle =
      if empty q then false else elim (front q) [ none ↦ false | some entry ↦ entry.1 == cycle ]

  unfoldable pub is_ready : ReadPort A → ℕ → Bool × ReadPort A
  unfolding cleanup_stale_data front_is_for
  is_ready p cycle = let p' = cleanup_stale_data p cycle in (front_is_for p'.queue cycle, p')

  unfoldable pub pop_front : ReadPort A → Option (A × ReadPort A)
  unfolding front pop
  pop_front p = elim (front p.queue) [
    | none ↦ none
    | some entry ↦ some (entry.0, record p { queue = pop p.queue })
  ]

  unfoldable pub read : ReadPort A → ℕ → Option (A × ReadPort A)
  unfolding is_ready pop_front
  read p cycle = let (ready, p') = is_ready p cycle in if ready then pop_front p' else none

  unfoldable pub emplace_data : ReadPort A → A → ℕ → ReadPort A
  unfolding cleanup_stale_data emplace
  emplace_data p what cycle =
      let cycle_to_read = add_word 64 cycle p.latency in
      let p' = cleanup_stale_data p cycle in
      record p' { queue = emplace p'.queue (what, cycle_to_read) }

  unfoldable pub init_read_port : ReadPort A → ℕ → ReadPort A
  unfolding resize
  init_read_port p bandwidth = record p { queue = resize p.queue ((p.latency + 1) * bandwidth) }

  unfoldable pub new_read_port : ℕ → ReadPort A
  unfolding new
  new_read_port latency = record { queue = new; latency = latency; last_cycle = 0 }

  unfoldable pub increment_write_counter : WritePort A → ℕ → Option (WritePort A)
  increment_write_counter p cycle =
      let counter = if p.last_cycle == cycle then add_word 32 p.write_counter 1 else 0 in
      if ltb p.bandwidth counter
      then none
      else some (record p { write_counter = counter; last_cycle = cycle })

  unfoldable pub basic_write : WritePort A → A → ℕ → WritePort A
  unfolding emplace_data
  basic_write p what cycle = record p {
    destinations = map (λ d. emplace_data d what cycle) p.destinations;
  }

  unfoldable pub write : WritePort A → A → ℕ → Option (WritePort A)
  unfolding increment_write_counter basic_write
  write p what cycle = elim (increment_write_counter p cycle) [
    | none ↦ none
    | some counted ↦ some (basic_write counted what cycle)
  ]

  -- `PortMap::init` for one cluster: `none` where it throws, for a port without readers.
  unfoldable pub init_cluster : ℕ → List (ReadPort A) → Option (WritePort A)
  unfolding init_read_port
  init_cluster bandwidth [] = none
  init_cluster bandwidth (r ∷ readers) = some (record {
    destinations = map (λ d. init_read_port d bandwidth) (r ∷ readers);
    last_cycle = 0;
    write_counter = 0;
    bandwidth = bandwidth;
  })
