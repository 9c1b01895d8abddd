-- ===== src/Riscv/Immediates.antt =====
-- The immediates against the layouts of the RISC-V manual.
use mipt_mips.Prelude.{
  ℕ, zero, suc, ◌+◌, ◌^◌, ◌<◌, ◌≡◌, refl, Option, none, some, List, [], ◌∷◌, ◌++◌,
}
use mipt_mips.Prelude.Digits.{testbit}
use mipt_mips.Macro.{bitmask, ones_ls}
use mipt_mips.Riscv.{decode}
use mipt_mips.Riscv.Formats.{ImmediateType, get_immediate_value}
use mipt_mips.Riscv.Places.{raw, masked, kept, shifted, either, gather, eval-eq-gather}

-- `n` places in a row, and places one by one.
abbrev run : ℕ → ℕ → List (Option ℕ)
run from zero = []
run from (suc n) = some from ∷ run (from + 1) n

abbrev at : List ℕ → List (Option ℕ)
at [] = []
at (p ∷ ps) = some p ∷ at ps

-- The digit of the instruction for each digit of an immediate, the lowest first, as the layouts of
-- the manual give them; a digit that is 0 has none. The upper immediate is not shifted here.
unfoldable pub layout : ImmediateType → List (Option ℕ)
layout ImmediateType.no_type = []
layout ImmediateType.i_type = run 20 12
layout ImmediateType.five = run 20 5
layout ImmediateType.six = run 20 6
layout ImmediateType.seven = run 20 7
layout ImmediateType.b_type = none ∷ run 8 4 ++ run 25 6 ++ at (7 ∷ 31 ∷ [])
layout ImmediateType.s_type = run 7 5 ++ run 25 7
layout ImmediateType.u_type = run 12 20
layout ImmediateType.j_type = none ∷ run 21 10 ++ run 20 1 ++ run 12 8 ++ run 31 1
layout ImmediateType.csr_type = run 15 5
layout ImmediateType.c_lwsp = none ∷ none ∷ at (4 ∷ 5 ∷ 6 ∷ 12 ∷ 2 ∷ 3 ∷ [])
layout ImmediateType.c_ldsp = none ∷ none ∷ none ∷ at (5 ∷ 6 ∷ 12 ∷ 2 ∷ 3 ∷ 4 ∷ [])
layout ImmediateType.c_lqsp = none ∷ none ∷ none ∷ none ∷ at (6 ∷ 12 ∷ 2 ∷ 3 ∷ 4 ∷ 5 ∷ [])
layout ImmediateType.c_swsp = none ∷ none ∷ at (9 ∷ 10 ∷ 11 ∷ 12 ∷ 7 ∷ 8 ∷ [])
layout ImmediateType.c_sdsp = none ∷ none ∷ none ∷ at (10 ∷ 11 ∷ 12 ∷ 7 ∷ 8 ∷ 9 ∷ [])
layout ImmediateType.c_sqsp = none ∷ none ∷ none ∷ none ∷ at (11 ∷ 12 ∷ 7 ∷ 8 ∷ 9 ∷ 10 ∷ [])
layout ImmediateType.c_lw = none ∷ none ∷ at (6 ∷ 10 ∷ 11 ∷ 12 ∷ 5 ∷ [])
layout ImmediateType.c_ld = none ∷ none ∷ none ∷ at (10 ∷ 11 ∷ 12 ∷ 5 ∷ 6 ∷ [])
layout ImmediateType.c_lq = none ∷ none ∷ none ∷ none ∷ at (11 ∷ 12 ∷ 5 ∷ 6 ∷ 10 ∷ [])
layout ImmediateType.c_i = at (2 ∷ 3 ∷ 4 ∷ 5 ∷ 6 ∷ 12 ∷ [])
layout ImmediateType.c_s = at (2 ∷ 3 ∷ 4 ∷ 5 ∷ 6 ∷ 12 ∷ [])
layout ImmediateType.c_j = none ∷ at (3 ∷ 4 ∷ 5 ∷ 11 ∷ 2 ∷ 7 ∷ 6 ∷ 9 ∷ 10 ∷ 8 ∷ 12 ∷ [])
layout ImmediateType.c_b = none ∷ at (3 ∷ 4 ∷ 10 ∷ 11 ∷ 2 ∷ 5 ∷ 6 ∷ 12 ∷ [])
layout ImmediateType.c_addi4spn = none ∷ none ∷ at (6 ∷ 5 ∷ 11 ∷ 12 ∷ 7 ∷ 8 ∷ 9 ∷ 10 ∷ [])
layout ImmediateType.c_addi16sp = none ∷ none ∷ none ∷ none ∷ at (6 ∷ 2 ∷ 5 ∷ 3 ∷ 4 ∷ 12 ∷ [])

-- In each format the immediate of an instruction of 32 bits has its digits at the places of the
-- layout.
pub get_immediate_value_lem :
    (t : ImmediateType) (word : ℕ)
    → word < 2 ^ 32
    → get_immediate_value (decode word) t ≡ gather (layout t) word
unfolding get_immediate_value decode layout bitmask testbit ones_ls
get_immediate_value_lem ImmediateType.no_type word small = refl
get_immediate_value_lem ImmediateType.i_type word small =
    eval-eq-gather (masked raw 0xfff00000) (layout ImmediateType.i_type) word small refl refl
get_immediate_value_lem ImmediateType.five word small =
    eval-eq-gather (kept (masked raw 0xfff00000) (bitmask 32 5)) (layout ImmediateType.five) word
      small refl refl
get_immediate_value_lem ImmediateType.six word small =
    eval-eq-gather (kept (masked raw 0xfff00000) (bitmask 32 6)) (layout ImmediateType.six) word
      small refl refl
get_immediate_value_lem ImmediateType.seven word small =
    eval-eq-gather (kept (masked raw 0xfff00000) (bitmask 32 7)) (layout ImmediateType.seven) word
      small refl refl
get_immediate_value_lem ImmediateType.b_type word small =
    eval-eq-gather
      (either
        (either (either (shifted (masked raw 0xf00) 1) (shifted (masked raw 0x7e000000) 5))
          (shifted (masked raw 0x80) 11))
        (shifted (masked raw 0x80000000) 12))
      (layout ImmediateType.b_type) word small refl refl
get_immediate_value_lem ImmediateType.s_type word small =
    eval-eq-gather (either (masked raw 0xf80) (shifted (masked raw 0xfe000000) 5))
      (layout ImmediateType.s_type) word small refl refl
get_immediate_value_lem ImmediateType.u_type word small =
    eval-eq-gather (masked raw 0xfffff000) (layout ImmediateType.u_type) word small refl refl
get_immediate_value_lem ImmediateType.j_type word small =
    eval-eq-gather
      (either
        (either (either (shifted (masked raw 0x7fe00000) 1) (shifted (masked raw 0x100000) 11))
          (shifted (masked raw 0xff000) 12))
        (shifted (masked raw 0x80000000) 20))
      (layout ImmediateType.j_type) word small refl refl
get_immediate_value_lem ImmediateType.csr_type word small =
    eval-eq-gather (masked raw 0xf8000) (layout ImmediateType.csr_type) word small refl refl
get_immediate_value_lem ImmediateType.c_lwsp word small =
    eval-eq-gather
      (either
        (either (shifted (masked (masked raw 0x1000) 0x1) 5)
          (shifted (masked (masked raw 0x7c) 0x1c) 2))
        (shifted (masked (masked raw 0x7c) 0x3) 6))
      (layout ImmediateType.c_lwsp) word small refl refl
get_immediate_value_lem ImmediateType.c_ldsp word small =
    eval-eq-gather
      (either
        (either (shifted (masked (masked raw 0x1000) 0x1) 5)
          (shifted (masked (masked raw 0x7c) 0x18) 3))
        (shifted (masked (masked raw 0x7c) 0x7) 6))
      (layout ImmediateType.c_ldsp) word small refl refl
get_immediate_value_lem ImmediateType.c_lqsp word small =
    eval-eq-gather
      (either
        (either (shifted (masked (masked raw 0x1000) 0x1) 5)
          (shifted (masked (masked raw 0x7c) 0x10) 4))
        (shifted (masked (masked raw 0x7c) 0xf) 6))
      (layout ImmediateType.c_lqsp) word small refl refl
get_immediate_value_lem ImmediateType.c_swsp word small =
    eval-eq-gather
      (either (shifted (masked (masked raw 0x1f80) 0x3c) 2)
        (shifted (masked (masked raw 0x1f80) 0x3) 6))
      (layout ImmediateType.c_swsp) word small refl refl
get_immediate_value_lem ImmediateType.c_sdsp word small =
    eval-eq-gather
      (either (shifted (masked (masked raw 0x1f80) 0x38) 3)
        (shifted (masked (masked raw 0x1f80) 0x7) 6))
      (layout ImmediateType.c_sdsp) word small refl refl
get_immediate_value_lem ImmediateType.c_sqsp word small =
    eval-eq-gather
      (either (shifted (masked (masked raw 0x1f80) 0x30) 4)
        (shifted (masked (masked raw 0x1f80) 0xf) 6))
      (layout ImmediateType.c_sqsp) word small refl refl
get_immediate_value_lem ImmediateType.c_lw word small =
    eval-eq-gather
      (either
        (either (shifted (masked (masked raw 0x60) 0x2) 2)
          (shifted (masked (masked raw 0x60) 0x1) 6))
        (shifted (masked (masked raw 0x1c00) 0x7) 3))
      (layout ImmediateType.c_lw) word small refl refl
get_immediate_value_lem ImmediateType.c_ld word small =
    eval-eq-gather
      (either (shifted (masked (masked raw 0x1c00) 0x7) 3)
        (shifted (masked (masked raw 0x60) 0x3) 6))
      (layout ImmediateType.c_ld) word small refl refl
get_immediate_value_lem ImmediateType.c_lq word small =
    eval-eq-gather
      (either
        (either (shifted (masked (masked raw 0x1c00) 0x6) 4)
          (shifted (masked (masked raw 0x1c00) 0x1) 8))
        (shifted (masked (masked raw 0x60) 0x3) 6))
      (layout ImmediateType.c_lq) word small refl refl
get_immediate_value_lem ImmediateType.c_i word small =
    eval-eq-gather
      (either (shifted (masked (masked raw 0x1000) 0x1) 5) (masked (masked raw 0x7c) 0x1f))
      (layout ImmediateType.c_i) word small refl refl
get_immediate_value_lem ImmediateType.c_s word small =
    eval-eq-gather
      (either (shifted (masked (masked raw 0x1000) 0x1) 5) (masked (masked raw 0x7c) 0x1f))
      (layout ImmediateType.c_s) word small refl refl
get_immediate_value_lem ImmediateType.c_j word small =
    eval-eq-gather
      (either
        (either
          (either
            (either
              (either
                (either
                  (either (shifted (masked (masked raw 0x1ffc) 0x400) 11)
                    (shifted (masked (masked raw 0x1ffc) 0x200) 4))
                  (shifted (masked (masked raw 0x1ffc) 0x180) 8))
                (shifted (masked (masked raw 0x1ffc) 0x40) 10))
              (shifted (masked (masked raw 0x1ffc) 0x20) 6))
            (shifted (masked (masked raw 0x1ffc) 0x10) 7))
          (shifted (masked (masked raw 0x1ffc) 0xe) 1))
        (shifted (masked (masked raw 0x1ffc) 0x1) 5))
      (layout ImmediateType.c_j) word small refl refl
get_immediate_value_lem ImmediateType.c_b word small =
    eval-eq-gather
      (either
        (either
          (either
            (either (shifted (masked (masked raw 0x1c00) 0x4) 8)
              (shifted (masked (masked raw 0x1c00) 0x3) 3))
            (shifted (masked (masked raw 0x7c) 0x18) 6))
          (shifted (masked (masked raw 0x7c) 0x6) 1))
        (shifted (masked (masked raw 0x7c) 0x1) 5))
      (layout ImmediateType.c_b) word small refl refl
get_immediate_value_lem ImmediateType.c_addi4spn word small =
    eval-eq-gather
      (either
        (either
          (either (shifted (masked (masked raw 0x1fe0) 0xc0) 4)
            (shifted (masked (masked raw 0x1fe0) 0x3c) 6))
          (shifted (masked (masked raw 0x1fe0) 0x2) 2))
        (shifted (masked (masked raw 0x1fe0) 0x1) 3))
      (layout ImmediateType.c_addi4spn) word small refl refl
get_immediate_value_lem ImmediateType.c_addi16sp word small =
    eval-eq-gather
      (either
        (either
          (either
            (either (shifted (masked (masked raw 0x1000) 0x1) 9)
              (shifted (masked (masked raw 0x7c) 0x10) 4))
            (shifted (masked (masked raw 0x7c) 0x8) 6))
          (shifted (masked (masked raw 0x7c) 0x6) 7))
        (shifted (masked (masked raw 0x7c) 0x1) 5))
      (layout ImmediateType.c_addi16sp) word small refl refl
