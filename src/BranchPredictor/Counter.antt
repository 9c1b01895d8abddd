-- ===== src/BranchPredictor/Counter.antt =====
-- The two-bit state is a counter that stops at 0 and 3.
use mipt_mips.Prelude.{
  ℕ, ◌+◌, ◌-◌, ◌≡◌, refl, Bool, true, false, leb, not, if◌then◌else◌, min, arith,
}
use mipt_mips.BranchPredictor.{TwoBit, two_bit_update, two_bit_is_taken}

unfoldable pub level : TwoBit → ℕ
level TwoBit.nt = 0
level TwoBit.wnt = 1
level TwoBit.wt = 2
level TwoBit.t = 3

-- A taken branch counts up to 3 and any other down to 0, and the prediction is the upper half.
pub two_bit_counter :
    (s : TwoBit) (is_taken : Bool)
    → (level (two_bit_update s is_taken) ≡ (if is_taken then min 3 (level s + 1) else level s - 1))
      × (two_bit_is_taken s ≡ leb 2 (level s))
unfolding level two_bit_update two_bit_is_taken
two_bit_counter TwoBit.nt true = (refl, refl)
two_bit_counter TwoBit.wnt true = (refl, refl)
two_bit_counter TwoBit.wt true = (refl, refl)
two_bit_counter TwoBit.t true = (refl, refl)
two_bit_counter TwoBit.nt false = (refl, refl)
two_bit_counter TwoBit.wnt false = (refl, refl)
two_bit_counter TwoBit.wt false = (refl, refl)
two_bit_counter TwoBit.t false = (refl, refl)

-- Two equal outcomes in a row set the prediction, and after three of them one other outcome does
-- not change it.
pub two_bit_hysteresis :
    (s : TwoBit) (b : Bool)
    → (two_bit_is_taken (two_bit_update (two_bit_update s b) b) ≡ b)
      × (two_bit_is_taken
            (two_bit_update (two_bit_update (two_bit_update (two_bit_update s b) b) b) (not b))
          ≡ b)
unfolding two_bit_update two_bit_is_taken
two_bit_hysteresis s b = ground arith
