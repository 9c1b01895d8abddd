-- ===== src/Ports/Fifo.antt =====
-- A queue represents the list of its elements, the oldest first.
use mipt_mips.Prelude.{
  ℕ, zero, suc, ◌+◌, ◌-◌, ◌^◌, ◌≤◌, ◌<◌, ◌≡◌, ◌↔◌, refl, true, false, some, List, [], ◌∷◌, ◌++◌,
  length, get_elem?, length-append, ltb, if◌then◌else◌, arith,
}
use mipt_mips.Ports.{PortQueue, full, empty, front, emplace, pop, resize}

-- An index past the end goes on at the start.
abbrev pub wrapped : ℕ → ℕ → ℕ
wrapped capacity n = if ltb n capacity then n else n - capacity

pub record Represents {A : Type 0} (q : PortQueue A) (xs : List A) : Type 0 where
  pub room : 0 < q.capacity
  pub small : q.capacity < 2 ^ 64
  pub allocated : q.arena.space ≡ q.capacity
  pub counted : q.occupied ≡ length xs
  pub bounded : length xs ≤ q.capacity
  pub front_inside : q.p_front < q.capacity
  pub back : q.p_back ≡ wrapped q.capacity (q.p_front + length xs)
  pub stored :
      (i : ℕ)
      → i < length xs
      → q.arena.storage (wrapped q.capacity (q.p_front + i)) ≡ get_elem? xs i

module _ {A : Type 0} where
  get_elem?-append_last :
      (xs : List A) (x : A) (i : ℕ)
      → i < length xs + 1
      → get_elem? (xs ++ x ∷ []) i ≡ (if ltb i (length xs) then get_elem? xs i else some x)
  get_elem?-append_last [] x zero h = refl
  get_elem?-append_last [] x (suc i) h = absurd (omega arith)
  get_elem?-append_last (y ∷ xs) x zero h = ground arith
  get_elem?-append_last (y ∷ xs) x (suc i) h =
      ground (arith, get_elem?-append_last xs x i (omega arith))

  module _ {q : PortQueue A} where
    -- On a queue that is not full, `emplace` appends to the list that the queue represents.
    pub emplace-Represents :
        (xs : List A) (x : A)
        → Represents q xs
        → full q ≡ false
        → Represents (emplace q x) (xs ++ x ∷ [])
    unfolding full emplace
    emplace-Represents xs x r h = record {
      room = r.room;
      small = r.small;
      allocated = r.allocated;
      counted = ground (arith, length-append xs (x ∷ []), r);
      bounded = ground (arith, length-append xs (x ∷ []), r);
      front_inside = r.front_inside;
      back = ground (arith, length-append xs (x ∷ []), r);
      stored = λ i below.
          let inside : i < length xs + 1 = omega (arith, length-append xs (x ∷ [])) in
          ground (arith, get_elem?-append_last xs x i inside, r.stored i);
    }

    -- On a queue that is not empty, `front` is the head of the list and `pop` leaves its tail.
    pub pop-Represents :
        (x : A) (xs : List A) → Represents q (x ∷ xs) → (front q ≡ some x) × Represents (pop q) xs
    unfolding pop front
    pop-Represents x xs r = (
      ground (arith, r.stored 0),
      record {
        room = r.room;
        small = r.small;
        allocated = r.allocated;
        counted = ground (arith, r);
        bounded = ground (arith, r);
        front_inside = ground (arith, r);
        back = ground (arith, r);
        stored = λ i below. ground (arith, r.stored (suc i));
      },
    )

    pub full_iff : (xs : List A) → Represents q xs → (full q ≡ true) ↔ (length xs ≡ q.capacity)
    unfolding full
    full_iff xs r = ground (arith, r)

    pub empty_iff : (xs : List A) → Represents q xs → (empty q ≡ true) ↔ (xs ≡ [])
    unfolding empty
    empty_iff [] r = ground (arith, r)
    empty_iff (x ∷ xs) r = ground (arith, r)

  -- `resize` leaves an empty queue of the given capacity.
  pub resize-Represents :
      (q : PortQueue A) (size : ℕ)
      → 0 < size
      → size < 2 ^ 64
      → Represents (resize q size) [] × ((resize q size).capacity ≡ size)
  unfolding resize
  resize-Represents q size pos small = (
    record {
      room = pos;
      small = small;
      allocated = refl;
      counted = refl;
      bounded = omega arith;
      front_inside = pos;
      back = ground arith;
      stored = λ i below. absurd (omega arith);
    },
    refl,
  )
