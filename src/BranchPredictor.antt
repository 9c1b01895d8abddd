-- ===== src/BranchPredictor.antt =====
-- modules/fetch/bpu/bpentry.h: the entries of the branch prediction unit.
pub mod Counter
pub mod History
use mathlib.Core.List.{foldl}
use mipt_mips.Prelude.{
  ℕ, suc, ◌+◌, ◌-◌, ◌*◌, ◌%◌, ◌^◌, Bool, true, false, ◌||◌, Option, none, some, List, map,
  get_elem?, set, replicate, ltb, if◌then◌else◌, bit_and, bit_or,
}
use mipt_mips.Prelude.Word.{shl}
use mipt_mips.Macro.{bitmask}

-- `BPEntryBackwardJumps::is_taken`
unfoldable pub backward_is_taken : ℕ → ℕ → Bool
backward_is_taken pc target = ltb target pc

-- `BPEntryOneBit`
pub data OneBit : Type 0 where
  nt t : OneBit

abbrev pub one_bit_default : OneBit
one_bit_default = OneBit.nt

unfoldable pub one_bit_is_taken : OneBit → Bool
one_bit_is_taken OneBit.nt = false
one_bit_is_taken OneBit.t = true

unfoldable pub one_bit_update : OneBit → Bool → OneBit
one_bit_update state true = OneBit.t
one_bit_update state false = OneBit.nt

-- `BPEntryTwoBit::State`
pub data TwoBit : Type 0 where
  nt wnt wt t : TwoBit

abbrev pub two_bit_default : TwoBit
two_bit_default = TwoBit.wnt

unfoldable pub two_bit_update : TwoBit → Bool → TwoBit
two_bit_update TwoBit.nt true = TwoBit.wnt
two_bit_update TwoBit.wnt true = TwoBit.wt
two_bit_update TwoBit.wt true = TwoBit.t
two_bit_update TwoBit.t true = TwoBit.t
two_bit_update TwoBit.nt false = TwoBit.nt
two_bit_update TwoBit.wnt false = TwoBit.nt
two_bit_update TwoBit.wt false = TwoBit.wnt
two_bit_update TwoBit.t false = TwoBit.wt

unfoldable pub two_bit_is_taken : TwoBit → Bool
two_bit_is_taken TwoBit.nt = false
two_bit_is_taken TwoBit.wnt = false
two_bit_is_taken TwoBit.wt = true
two_bit_is_taken TwoBit.t = true

-- `BPEntryAdaptive<DEPTH>`
pub record Adaptive : Type 0 where
  pub state_table : List TwoBit
  pub current_pattern : ℕ

module _ (depth : ℕ) where
  -- `PredictionPattern::update`
  unfoldable pub pattern_update : ℕ → Bool → ℕ
  pattern_update value is_taken =
      let kept = bit_and (shl 32 value 1) (bitmask 32 depth) in
      if is_taken then bit_or kept 1 else kept

  unfoldable pub adaptive_init : Adaptive
  adaptive_init = record {
    state_table = replicate (bitmask 64 depth + 1) two_bit_default;
    current_pattern = 0;
  }

  -- `none` where `at` throws.
  unfoldable pub adaptive_is_taken : Adaptive → Option Bool
  adaptive_is_taken e = elim (get_elem? e.state_table e.current_pattern) [
    | none ↦ none
    | some state ↦ some (two_bit_is_taken state)
  ]

  unfoldable pub adaptive_update : Adaptive → Bool → Option Adaptive
  adaptive_update e is_taken = elim (get_elem? e.state_table e.current_pattern) [
    | none ↦ none
    | some state ↦ some (record {
      state_table = set e.state_table e.current_pattern (two_bit_update state is_taken);
      current_pattern = pattern_update e.current_pattern is_taken;
    })
  ]

  unfoldable pub adaptive_reset : Adaptive → Adaptive
  adaptive_reset e = record {
    state_table = map (λ _. two_bit_default) e.state_table;
    current_pattern = 0;
  }
