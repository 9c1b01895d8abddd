-- ===== src/Replacement/PseudoLru.antt =====
-- `class PseudoLRU` of infra/replacement/cache_replacement.cpp: a binary tree of flags, the node
-- `n` above the nodes `2 * n + 1` and `2 * n + 2`; way `w` is the leaf `w + nodes.size()`.
pub mod Descent
pub mod Victim
use mathlib.Core.Logic.{◌≢◌}
use mipt_mips.Prelude.{
  ℕ, zero, suc, ◌+◌, ◌-◌, ◌*◌, ◌/◌, ◌%◌, Bool, true, false, not, Option, none, some, List, [], ◌∷◌,
  length, get_or, set, replicate, ◌==◌, ltb, ◌&&◌, if◌then◌else◌, bit_and,
}

pub data Flags : Type 0 where
  left right : Flags

abbrev pub is_left : Flags → Bool
is_left Flags.left = true
is_left Flags.right = false

abbrev pub same_flag : Flags → Flags → Bool
same_flag Flags.left f = is_left f
same_flag Flags.right f = not (is_left f)

pub record PseudoLru : Type 0 where
  pub nodes : List Flags
  pub ways : ℕ

-- `std::has_single_bit`
unfoldable pub is_power_of_two : ℕ → Bool
is_power_of_two n = not (n == 0) && bit_and n (n - 1) == 0

-- The constructor; `none` is the exception "Number of ways must be the power of 2!". For no ways
-- the vector of `ways - 1` nodes cannot be allocated, which is an exception too.
unfoldable pub init : ℕ → Option PseudoLru
init ways =
    if is_power_of_two ways
    then some (record { nodes = replicate (ways - 1) Flags.left; ways = ways })
    else none

-- `nodes[node]`
abbrev pub flag_at : List Flags → ℕ → Flags
flag_at nodes node = get_or nodes node Flags.left

unfoldable pub get_next_node : List Flags → ℕ → ℕ
get_next_node nodes node = node * 2 + (if is_left (flag_at nodes node) then 1 else 2)

unfoldable pub get_direction_to_prev_node : ℕ → Flags
get_direction_to_prev_node node = if node % 2 == 0 then Flags.right else Flags.left

unfoldable pub reverse_node : List Flags → ℕ → List Flags
reverse_node nodes node =
    set nodes node (if is_left (flag_at nodes node) then Flags.right else Flags.left)

-- One round of the loop of `touch`, at a node other than the root.
unfoldable pub touch_node : List Flags → ℕ → List Flags
touch_node nodes node =
    let parent = (node - 1) / 2 in
    if same_flag (get_direction_to_prev_node node) (flag_at nodes parent)
    then reverse_node nodes parent
    else nodes

-- `while ( node != 0)`, with fuel.
unfoldable pub touch_loop : ℕ → List Flags → ℕ → List Flags
touch_loop zero nodes node = nodes
touch_loop (suc fuel) nodes node =
    let rest = touch_loop fuel (touch_node nodes node) ((node - 1) / 2) in
    if node == 0 then nodes else rest

unfoldable pub touch : PseudoLru → ℕ → PseudoLru
touch s way =
    let node = way + length s.nodes in record s { nodes = touch_loop (suc node) s.nodes node }

-- `while ( node < nodes.size())`, with fuel.
unfoldable pub walk : ℕ → List Flags → ℕ → ℕ
walk zero nodes node = node
walk (suc fuel) nodes node =
    let rest = walk fuel nodes (get_next_node nodes node) in
    if ltb node (length nodes) then rest else node

unfoldable pub victim : PseudoLru → ℕ
victim s = walk (suc (length s.nodes)) s.nodes 0 - length s.nodes

unfoldable pub update : PseudoLru → ℕ × PseudoLru
update s = (victim s, touch s (victim s))

-- `none` is the exception "PLRU does not support inverted access".
unfoldable pub set_to_erase : PseudoLru → ℕ → Option PseudoLru
set_to_erase s way = none
