-- ===== src/Replacement/PseudoLru/Victim.antt =====
-- The way that `update` picks is the leaf at the end of the flags, and is never the way touched last.
use mipt_mips.Prelude.{
  ℕ, zero, suc, ◌+◌, ◌-◌, ◌*◌, ◌/◌, ◌≤◌, ◌<◌, ◌≡◌, ◌≢◌, refl, true, false, some, List, length, ◌==◌,
  ltb, arith, Bool-cases, ltb→lt, inl, inr, length-set, get_or-set, length-replicate,
}
use mathlib.Core.Path.{subst}
use mipt_mips.Replacement.PseudoLru.Descent.{next_bounds, Descends, walk-Descends}
use mipt_mips.Replacement.PseudoLru.{
  Flags, is_left, same_flag, PseudoLru, flag_at, get_next_node, get_direction_to_prev_node,
  reverse_node, touch_node, touch_loop, touch, walk, victim, update, init,
}

length-touch_node : (nodes : List Flags) (node : ℕ) → length (touch_node nodes node) ≡ length nodes
unfolding touch_node reverse_node
length-touch_node nodes node =
    elim (Bool-cases
      (same_flag (get_direction_to_prev_node node) (flag_at nodes ((node - 1) / 2)))) [
        | inl e ↦ rw e (length-set nodes ((node - 1) / 2) _)
        | inr e ↦ rw e
      ]

length-touch_loop :
    (fuel : ℕ) (nodes : List Flags) (node : ℕ) → length (touch_loop fuel nodes node) ≡ length nodes
unfolding touch_loop
length-touch_loop zero nodes node = refl
length-touch_loop (suc fuel) nodes node = ground (
  arith,
  length-touch_loop fuel (touch_node nodes node) ((node - 1) / 2),
  length-touch_node nodes node,
)

-- A round of `touch` turns the parent's flag away from the node.
touch_node-away :
    (nodes : List Flags) (node : ℕ)
    → 0 < node
    → (node - 1) / 2 < length nodes
    → same_flag (get_direction_to_prev_node node) (flag_at (touch_node nodes node) ((node - 1) / 2))
      ≡ false
unfolding touch_node reverse_node get_direction_to_prev_node
touch_node-away nodes node pos inside = ground (
  arith,
  get_or-set nodes ((node - 1) / 2) ((node - 1) / 2) Flags.left Flags.left inside,
  get_or-set nodes ((node - 1) / 2) ((node - 1) / 2) Flags.right Flags.left inside,
)

flag_at-touch_node :
    (nodes : List Flags) (node j : ℕ)
    → 0 < node
    → node ≤ j
    → (node - 1) / 2 < length nodes
    → flag_at (touch_node nodes node) j ≡ flag_at nodes j
unfolding touch_node reverse_node
flag_at-touch_node nodes node j pos le inside = ground (
  arith,
  get_or-set nodes ((node - 1) / 2) j Flags.left Flags.left inside,
  get_or-set nodes ((node - 1) / 2) j Flags.right Flags.left inside,
)

-- The rounds that follow change only flags nearer to the root.
flag_at-touch_loop :
    (fuel : ℕ) (nodes : List Flags) (node j : ℕ)
    → node ≤ j
    → node ≤ length nodes
    → flag_at (touch_loop fuel nodes node) j ≡ flag_at nodes j
unfolding touch_loop
flag_at-touch_loop zero nodes node j le inside = refl
flag_at-touch_loop (suc fuel) nodes node j le inside = ground (
  arith,
  flag_at-touch_node nodes node j,
  flag_at-touch_loop fuel (touch_node nodes node) ((node - 1) / 2) j,
  length-touch_node nodes node,
)

-- After a touch, the parent of the way's leaf points away from the leaf.
touch-away :
    (s : PseudoLru) (way : ℕ)
    → 0 < length s.nodes
    → way ≤ length s.nodes
    → let leaf = way + length s.nodes in
      same_flag (get_direction_to_prev_node leaf) (flag_at (touch s way).nodes ((leaf - 1) / 2))
      ≡ false
unfolding touch touch_loop
touch-away s way pos inside =
    let leaf : ℕ = way + length s.nodes in
    let parent : ℕ = (leaf - 1) / 2 in
    let below : parent < length s.nodes = omega arith in
    let running : (leaf == 0) ≡ false = ground arith in
    let kept =
      flag_at-touch_loop leaf (touch_node s.nodes leaf) parent parent (omega arith)
        (omega (arith, length-touch_node s.nodes leaf)) in
    rw (running, kept) (touch_node-away s.nodes leaf (omega arith) below)

-- With fuel for the nodes that are left, the walk ends at a leaf, and the flag above points to it.
record EndsAtLeaf (nodes : List Flags) (node r : ℕ) : Type 0 where
  past : length nodes ≤ r
  inside : r ≤ 2 * length nodes
  pointed :
      node < length nodes
      → (0 < r) × (same_flag (get_direction_to_prev_node r) (flag_at nodes ((r - 1) / 2)) ≡ true)

next_pointed :
    (nodes : List Flags) (node : ℕ)
    → let r = get_next_node nodes node in
      same_flag (get_direction_to_prev_node r) (flag_at nodes ((r - 1) / 2)) ≡ true
unfolding get_next_node get_direction_to_prev_node
next_pointed nodes node = elim (Bool-cases (is_left (flag_at nodes node))) [
  | inl e ↦ ground (arith, next_left e)
  | inr e ↦ ground (arith, next_right e)
]
  where
    next_left :
        is_left (flag_at nodes node) ≡ true
        → (get_next_node nodes node ≡ node * 2 + 1) × ((get_next_node nodes node - 1) / 2 ≡ node)
    next_left e = ground arith

    next_right :
        is_left (flag_at nodes node) ≡ false
        → (get_next_node nodes node ≡ node * 2 + 2) × ((get_next_node nodes node - 1) / 2 ≡ node)
    next_right e = ground arith

walk_stop :
    (fuel : ℕ) (nodes : List Flags) (node : ℕ) → length nodes ≤ node → walk fuel nodes node ≡ node
unfolding walk
walk_stop zero nodes node h = refl
walk_stop (suc fuel) nodes node h = ground arith

walk-EndsAtLeaf :
    (fuel : ℕ) (nodes : List Flags) (node : ℕ)
    → length nodes < node + fuel
    → node ≤ 2 * length nodes
    → EndsAtLeaf nodes node (walk fuel nodes node)
unfolding walk
walk-EndsAtLeaf zero nodes node enough inside = record {
  past = omega arith;
  inside = inside;
  pointed = λ h. absurd (omega arith);
}
walk-EndsAtLeaf (suc fuel) nodes node enough inside = elim (Bool-cases (ltb node (length nodes))) [
  | inl going ↦
      let next : ℕ = get_next_node nodes node in
      let bounds = next_bounds nodes node in
      let rest = walk-EndsAtLeaf fuel nodes next (omega (arith, bounds)) (ground (arith, bounds)) in
      rw (going, walk)
        (record {
          past = rest.past;
          inside = rest.inside;
          pointed = λ h. elim (Bool-cases (ltb next (length nodes))) [
            | inl deeper ↦ rest.pointed (ltb→lt _ _ deeper)
            | inr leaf ↦
                rw (walk_stop fuel nodes next (ground arith))
                  (omega (arith, bounds), next_pointed nodes node)
          ];
        })
  | inr stopped ↦
      rw (stopped, walk)
        (record { past = ground arith; inside = inside; pointed = λ h. absurd (ground arith) })
]

abbrev pub IsTree : PseudoLru → Type 0
IsTree s = length s.nodes + 1 ≡ s.ways

pub init-IsTree : (ways : ℕ) {s : PseudoLru} → init ways ≡ some s → 0 < ways → IsTree s
unfolding init
init-IsTree ways e pos = ground (arith, length-replicate (ways - 1) Flags.left)

module _ (s : PseudoLru) (tree : IsTree s) where
  pub touch-IsTree : (way : ℕ) → IsTree (touch s way)
  unfolding touch
  touch-IsTree way =
      omega
        (arith, length-touch_loop (suc (way + length s.nodes)) s.nodes (way + length s.nodes), tree)

  -- In a tree with a leaf for each way, the way that `update` returns is a way of the set, and its leaf
  -- is where the flags lead from the root, the children of node `n` being `2 * n + 1` and
  -- `2 * n + 2`; the walk ends.
  pub update-Descends : Descends s.nodes 0 (length s.nodes + (update s).0) × ((update s).0 < s.ways)
  unfolding update victim
  update-Descends =
      let fuel : ℕ = suc (length s.nodes) in
      let end = walk-EndsAtLeaf fuel s.nodes 0 (omega arith) (omega arith) in
      (
        subst (Descends s.nodes 0) (omega (arith, end.past))
            (walk-Descends fuel s.nodes 0 (omega arith)),
        omega (arith, tree, end.past, end.inside),
      )

length-touch : (s : PseudoLru) (way : ℕ) → length (touch s way).nodes ≡ length s.nodes
unfolding touch
length-touch s way = length-touch_loop (suc (way + length s.nodes)) s.nodes (way + length s.nodes)

-- A way that was just touched is not the next victim, in a set of two ways or more.
pub victim-touch :
    (s : PseudoLru) (way : ℕ) → IsTree s → 1 < s.ways → way < s.ways → victim (touch s way) ≢ way
unfolding victim
victim-touch s way tree several inside same =
    let t = touch s way in
    let size : length t.nodes ≡ length s.nodes = length-touch s way in
    let end = walk-EndsAtLeaf (suc (length t.nodes)) t.nodes 0 (omega arith) (omega arith) in
    let r : ℕ = walk (suc (length t.nodes)) t.nodes 0 in
    let at_leaf : r ≡ way + length s.nodes = omega (arith, end.past, end.inside, same, size) in
    let pointed = rw at_leaf at ((end.pointed (omega arith)).1) in
    let away = touch-away s way (omega arith) (omega arith) in cc (pointed, away)
