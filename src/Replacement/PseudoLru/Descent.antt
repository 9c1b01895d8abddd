-- ===== src/Replacement/PseudoLru/Descent.antt =====
-- `update` of `PseudoLRU`: the way down the tree, without fuel.
use mathlib.Core.Path.{subst}
use mipt_mips.Prelude.{
  ℕ, zero, suc, ◌+◌, ◌*◌, ◌≤◌, ◌<◌, ◌≡◌, refl, List, length, ltb, arith, Bool-cases, ltb→lt, inl,
  inr, if◌then◌else◌,
}
use mipt_mips.Replacement.PseudoLru.{Flags, is_left, flag_at, get_next_node, walk}

pub next_bounds :
    (nodes : List Flags) (node : ℕ)
    → (node < get_next_node nodes node) × (get_next_node nodes node ≤ 2 * node + 2)
unfolding get_next_node
next_bounds nodes node = ground arith

-- The way down from a node: to the left child where the flag points to the left, to the right child
-- where it does not, until a leaf.
pub data Descends (nodes : List Flags) : ℕ → ℕ → Type 0 where
  leaf : {node : ℕ} → length nodes ≤ node → Descends nodes node node
  to_left :
      {node r : ℕ}
      → node < length nodes
      → flag_at nodes node ≡ Flags.left
      → Descends nodes (2 * node + 1) r
      → Descends nodes node r
  to_right :
      {node r : ℕ}
      → node < length nodes
      → flag_at nodes node ≡ Flags.right
      → Descends nodes (2 * node + 2) r
      → Descends nodes node r

next-Descends :
    (nodes : List Flags) (node r : ℕ)
    → node < length nodes
    → Descends nodes (get_next_node nodes node) r
    → Descends nodes node r
unfolding get_next_node
next-Descends nodes node r inside rest = go (flag_at nodes node) refl rest
  where
    go :
        (f : Flags)
        → flag_at nodes node ≡ f
        → Descends nodes (node * 2 + (if is_left f then 1 else 2)) r
        → Descends nodes node r
    go Flags.left e d = to_left inside e (subst (λ n. Descends nodes n r) (omega arith) d)
    go Flags.right e d = to_right inside e (subst (λ n. Descends nodes n r) (omega arith) d)

-- With fuel for the nodes that are left, the walk is the way down from the node.
pub walk-Descends :
    (fuel : ℕ) (nodes : List Flags) (node : ℕ)
    → length nodes < node + fuel
    → Descends nodes node (walk fuel nodes node)
unfolding walk
walk-Descends zero nodes node enough = leaf (omega (arith, enough))
walk-Descends (suc fuel) nodes node enough = elim (Bool-cases (ltb node (length nodes))) [
  | inl going ↦
      let next : ℕ = get_next_node nodes node in
      let bounds = next_bounds nodes node in
      rw going (
        next-Descends nodes node (walk fuel nodes next) (ltb→lt _ _ going)
          (walk-Descends fuel nodes next (omega (arith, bounds, enough))))
  | inr stopped ↦ rw stopped (leaf (ground (arith, stopped)))
]
