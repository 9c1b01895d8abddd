-- ===== src/Riscv/Offsets.antt =====
-- The sign of the offsets of branches and jumps.
use mipt_mips.Prelude.{ℕ, ◌-◌, ◌^◌, ◌≤◌, ◌<◌, ◌≡◌, ◌↔◌, ◌⊎◌, arith}
use mipt_mips.Macro.{sign_extension}
use mipt_mips.Macro.Laws.{sign_extension_lem, pow_lt}
use mipt_mips.Riscv.Formats.{ImmediateType, get_immediate}

-- For registers of more than 21 bits: the offset of a branch, of 13 bits, keeps its value exactly
-- when it is between -2^11 and 2^11 - 1, and that of a jump, of 21 bits, exactly when it is between
-- -2^19 and 2^19 - 1.
pub get_immediate-offset :
    (w branch jump : ℕ)
    → 21 < w
    → branch < 2 ^ 13
    → jump < 2 ^ 21
    → ((get_immediate w ImmediateType.b_type branch ≡ sign_extension w branch 13)
        ↔ ((branch < 2 ^ 11) ⊎ (2 ^ 13 - 2 ^ 11 ≤ branch)))
      × ((get_immediate w ImmediateType.j_type jump ≡ sign_extension w jump 21)
          ↔ ((jump < 2 ^ 19) ⊎ (2 ^ 21 - 2 ^ 19 ≤ jump)))
unfolding get_immediate
get_immediate-offset w branch jump wide small small' =
    let far = pow_lt 21 w wide in
    (
      rw
          (
            sign_extension_lem w branch 11 (omega arith),
            sign_extension_lem w branch 12 (omega arith),
          )
          (ground (arith, far)),
      rw (sign_extension_lem w jump 19 (omega arith), sign_extension_lem w jump 20 (omega arith))
          (ground (arith, far)),
    )
