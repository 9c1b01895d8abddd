-- ===== src/Ports.antt =====
-- infra/arena.h and infra/ports/port_queue: the ring buffer behind every port of the pipeline.
pub mod Fifo
pub mod Runs
pub mod Clocked
use mipt_mips.Prelude.{
  ℕ, zero, suc, ◌+◌, ◌-◌, ◌^◌, Bool, true, false, Option, none, some, ◌==◌, if◌then◌else◌,
}
use mipt_mips.Prelude.Word.{add_word, sub_word}

abbrev pub update {ℓ} : {A : Type ℓ} → (ℕ → A) → ℕ → A → ℕ → A
update f i v j = if j == i then v else f j

-- Uninitialised storage; a place holds `none` where no object lives.
pub record Arena {ℓ} (A : Type ℓ) : Type ℓ where
  pub space : ℕ
  pub storage : ℕ → Option A

module _ {ℓ} {A : Type ℓ} where
  abbrev pub allocate : ℕ → Arena A
  allocate capacity = record { space = capacity; storage = λ _. none }

  abbrev pub construct : Arena A → ℕ → A → Arena A
  construct a position v = record a { storage = update a.storage position (some v) }

  abbrev pub destroy : Arena A → ℕ → Arena A
  destroy a position = record a { storage = update a.storage position none }

pub record PortQueue {ℓ} (A : Type ℓ) : Type ℓ where
  pub arena : Arena A
  pub p_front : ℕ
  pub p_back : ℕ
  pub occupied : ℕ
  pub capacity : ℕ

-- The counters are of type `size_t`.
unfoldable pub advance_ptr : ℕ → ℕ → ℕ
advance_ptr capacity p = let next = add_word 64 p 1 in if next == capacity then 0 else next

module _ {ℓ} {A : Type ℓ} where
  unfoldable pub full : PortQueue A → Bool
  full q = q.occupied == q.capacity

  unfoldable pub empty : PortQueue A → Bool
  empty q = q.occupied == 0

  unfoldable pub front : PortQueue A → Option A
  front q = q.arena.storage q.p_front

  unfoldable pub emplace : PortQueue A → A → PortQueue A
  unfolding advance_ptr
  emplace q v = record q {
    arena = construct q.arena q.p_back v;
    p_back = advance_ptr q.capacity q.p_back;
    occupied = add_word 64 q.occupied 1;
  }

  unfoldable pub pop : PortQueue A → PortQueue A
  unfolding advance_ptr
  pop q = record q {
    arena = destroy q.arena q.p_front;
    p_front = advance_ptr q.capacity q.p_front;
    occupied = sub_word 64 q.occupied 1;
  }

  -- `while ( !empty()) pop();`, with fuel.
  unfoldable pub clear_loop : ℕ → PortQueue A → PortQueue A
  clear_loop zero q = q
  clear_loop (suc fuel) q = elim (empty q) [ true ↦ q | false ↦ clear_loop fuel (pop q) ]

  unfoldable pub clear : PortQueue A → PortQueue A
  clear q = clear_loop q.occupied q

  unfoldable pub resize : PortQueue A → ℕ → PortQueue A
  resize q size = record (clear q) {
    arena = allocate size;
    p_front = 0;
    p_back = 0;
    occupied = 0;
    capacity = size;
  }

  -- `PortQueue()`
  unfoldable pub new : PortQueue A
  new = record { arena = allocate 0; p_front = 0; p_back = 0; occupied = 0; capacity = 0 }
