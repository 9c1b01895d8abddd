-- ===== src/Riscv/Formats.antt =====
-- The immediates of risc_v/riscv_decoder.h. A character of a format is a constructor of
-- `ImmediateType`, so that the failed assertion on any other does not arise.
use mipt_mips.Prelude.{ℕ, bit_and, bit_or}
use mipt_mips.Prelude.Word.{shl, countr_zero}
use mipt_mips.Macro.{bitmask, sign_extension}
use mipt_mips.Riscv.{Decoder, apply_mask}

pub data ImmediateType : Type 0 where
  i_type five six seven b_type s_type u_type j_type csr_type no_type : ImmediateType
  c_lwsp c_ldsp c_lqsp c_swsp c_sdsp c_sqsp c_lw c_ld c_lq c_i c_j c_s c_b : ImmediateType
  c_addi4spn c_addi16sp : ImmediateType

unfoldable pub get_b_immediate : Decoder → ℕ
get_b_immediate d =
    bit_or (bit_or (bit_or (shl 32 d.b_imm4_1 1) (shl 32 d.b_imm10_5 5)) (shl 32 d.b_imm11 11))
      (shl 32 d.b_imm12 12)

unfoldable pub get_j_immediate : Decoder → ℕ
get_j_immediate d =
    bit_or (bit_or (bit_or (shl 32 d.j_imm10_1 1) (shl 32 d.j_imm11 11)) (shl 32 d.j_imm19_12 12))
      (shl 32 d.j_imm20 20)

unfoldable pub get_c_lwsp_immediate : Decoder → ℕ
unfolding apply_mask
get_c_lwsp_immediate d =
    bit_or (bit_or (shl 32 (apply_mask d.ci_imm_1 0x1) 5) (shl 32 (apply_mask d.ci_imm_2 0x1c) 2))
      (shl 32 (apply_mask d.ci_imm_2 0x3) 6)

unfoldable pub get_c_ldsp_immediate : Decoder → ℕ
unfolding apply_mask
get_c_ldsp_immediate d =
    bit_or (bit_or (shl 32 (apply_mask d.ci_imm_1 0x1) 5) (shl 32 (apply_mask d.ci_imm_2 0x18) 3))
      (shl 32 (apply_mask d.ci_imm_2 0x7) 6)

unfoldable pub get_c_lqsp_immediate : Decoder → ℕ
unfolding apply_mask
get_c_lqsp_immediate d =
    bit_or (bit_or (shl 32 (apply_mask d.ci_imm_1 0x1) 5) (shl 32 (apply_mask d.ci_imm_2 0x10) 4))
      (shl 32 (apply_mask d.ci_imm_2 0xf) 6)

unfoldable pub get_c_swsp_immediate : Decoder → ℕ
unfolding apply_mask
get_c_swsp_immediate d =
    bit_or (shl 32 (apply_mask d.css_imm 0x3c) 2) (shl 32 (apply_mask d.css_imm 0x3) 6)

unfoldable pub get_c_sdsp_immediate : Decoder → ℕ
unfolding apply_mask
get_c_sdsp_immediate d =
    bit_or (shl 32 (apply_mask d.css_imm 0x38) 3) (shl 32 (apply_mask d.css_imm 0x7) 6)

unfoldable pub get_c_sqsp_immediate : Decoder → ℕ
unfolding apply_mask
get_c_sqsp_immediate d =
    bit_or (shl 32 (apply_mask d.css_imm 0x30) 4) (shl 32 (apply_mask d.css_imm 0xf) 6)

unfoldable pub get_c_lw_immediate : Decoder → ℕ
unfolding apply_mask
get_c_lw_immediate d =
    bit_or (bit_or (shl 32 (apply_mask d.cl_imm_2 0x2) 2) (shl 32 (apply_mask d.cl_imm_2 0x1) 6))
      (shl 32 (apply_mask d.cl_imm_1 0x7) 3)

unfoldable pub get_c_ld_immediate : Decoder → ℕ
unfolding apply_mask
get_c_ld_immediate d =
    bit_or (shl 32 (apply_mask d.cl_imm_1 0x7) 3) (shl 32 (apply_mask d.cl_imm_2 0x3) 6)

unfoldable pub get_c_lq_immediate : Decoder → ℕ
unfolding apply_mask
get_c_lq_immediate d =
    bit_or (bit_or (shl 32 (apply_mask d.cl_imm_1 0x6) 4) (shl 32 (apply_mask d.cl_imm_1 0x1) 8))
      (shl 32 (apply_mask d.cl_imm_2 0x3) 6)

unfoldable pub get_c_i_immediate : Decoder → ℕ
unfolding apply_mask
get_c_i_immediate d = bit_or (shl 32 (apply_mask d.ci_imm_1 0x1) 5) (apply_mask d.ci_imm_2 0x1f)

unfoldable pub get_c_j_immediate : Decoder → ℕ
unfolding apply_mask
get_c_j_immediate d =
    bit_or
      (bit_or
        (bit_or
          (bit_or
            (bit_or
              (bit_or
                (bit_or (shl 32 (apply_mask d.cj_imm 0x400) 11)
                  (shl 32 (apply_mask d.cj_imm 0x200) 4))
                (shl 32 (apply_mask d.cj_imm 0x180) 8))
              (shl 32 (apply_mask d.cj_imm 0x40) 10))
            (shl 32 (apply_mask d.cj_imm 0x20) 6))
          (shl 32 (apply_mask d.cj_imm 0x10) 7))
        (shl 32 (apply_mask d.cj_imm 0xe) 1))
      (shl 32 (apply_mask d.cj_imm 0x1) 5)

unfoldable pub get_c_b_immediate : Decoder → ℕ
unfolding apply_mask
get_c_b_immediate d =
    bit_or
      (bit_or
        (bit_or
          (bit_or (shl 32 (apply_mask d.cl_imm_1 0x4) 8) (shl 32 (apply_mask d.cl_imm_1 0x3) 3))
          (shl 32 (apply_mask d.ci_imm_2 0x18) 6))
        (shl 32 (apply_mask d.ci_imm_2 0x6) 1))
      (shl 32 (apply_mask d.ci_imm_2 0x1) 5)

unfoldable pub get_c_addi4spn_immediate : Decoder → ℕ
unfolding apply_mask
get_c_addi4spn_immediate d =
    bit_or
      (bit_or (bit_or (shl 32 (apply_mask d.ciw_imm 0xc0) 4) (shl 32 (apply_mask d.ciw_imm 0x3c) 6))
        (shl 32 (apply_mask d.ciw_imm 0x2) 2))
      (shl 32 (apply_mask d.ciw_imm 0x1) 3)

unfoldable pub get_c_addi16sp_immediate : Decoder → ℕ
unfolding apply_mask
get_c_addi16sp_immediate d =
    bit_or
      (bit_or
        (bit_or
          (bit_or (shl 32 (apply_mask d.ci_imm_1 0x1) 9) (shl 32 (apply_mask d.ci_imm_2 0x10) 4))
          (shl 32 (apply_mask d.ci_imm_2 0x8) 6))
        (shl 32 (apply_mask d.ci_imm_2 0x6) 7))
      (shl 32 (apply_mask d.ci_imm_2 0x1) 5)

unfoldable pub get_compressed_immediate_value : Decoder → ImmediateType → ℕ
unfolding get_c_lwsp_immediate get_c_ldsp_immediate get_c_lqsp_immediate get_c_swsp_immediate
    get_c_sdsp_immediate get_c_sqsp_immediate get_c_lw_immediate get_c_ld_immediate
    get_c_lq_immediate get_c_j_immediate get_c_b_immediate get_c_addi4spn_immediate
    get_c_addi16sp_immediate get_c_i_immediate
get_compressed_immediate_value d ImmediateType.c_lwsp = get_c_lwsp_immediate d
get_compressed_immediate_value d ImmediateType.c_ldsp = get_c_ldsp_immediate d
get_compressed_immediate_value d ImmediateType.c_lqsp = get_c_lqsp_immediate d
get_compressed_immediate_value d ImmediateType.c_swsp = get_c_swsp_immediate d
get_compressed_immediate_value d ImmediateType.c_sdsp = get_c_sdsp_immediate d
get_compressed_immediate_value d ImmediateType.c_sqsp = get_c_sqsp_immediate d
get_compressed_immediate_value d ImmediateType.c_lw = get_c_lw_immediate d
get_compressed_immediate_value d ImmediateType.c_ld = get_c_ld_immediate d
get_compressed_immediate_value d ImmediateType.c_lq = get_c_lq_immediate d
get_compressed_immediate_value d ImmediateType.c_j = get_c_j_immediate d
get_compressed_immediate_value d ImmediateType.c_b = get_c_b_immediate d
get_compressed_immediate_value d ImmediateType.c_addi4spn = get_c_addi4spn_immediate d
get_compressed_immediate_value d ImmediateType.c_addi16sp = get_c_addi16sp_immediate d
get_compressed_immediate_value d _ = get_c_i_immediate d

unfoldable pub get_immediate_value : Decoder → ImmediateType → ℕ
unfolding get_b_immediate get_j_immediate get_compressed_immediate_value
get_immediate_value d ImmediateType.i_type = d.i_imm
get_immediate_value d ImmediateType.five = bit_and d.i_imm (bitmask 32 5)
get_immediate_value d ImmediateType.six = bit_and d.i_imm (bitmask 32 6)
get_immediate_value d ImmediateType.seven = bit_and d.i_imm (bitmask 32 7)
get_immediate_value d ImmediateType.b_type = get_b_immediate d
get_immediate_value d ImmediateType.s_type = bit_or d.s_imm4_0 (shl 32 d.s_imm11_5 5)
get_immediate_value d ImmediateType.u_type = d.u_imm
get_immediate_value d ImmediateType.j_type = get_j_immediate d
get_immediate_value d ImmediateType.csr_type = d.csr_imm
get_immediate_value d ImmediateType.no_type = 0
get_immediate_value d ImmediateType.c_lwsp = get_compressed_immediate_value d ImmediateType.c_lwsp
get_immediate_value d ImmediateType.c_ldsp = get_compressed_immediate_value d ImmediateType.c_ldsp
get_immediate_value d ImmediateType.c_lqsp = get_compressed_immediate_value d ImmediateType.c_lqsp
get_immediate_value d ImmediateType.c_swsp = get_compressed_immediate_value d ImmediateType.c_swsp
get_immediate_value d ImmediateType.c_sdsp = get_compressed_immediate_value d ImmediateType.c_sdsp
get_immediate_value d ImmediateType.c_sqsp = get_compressed_immediate_value d ImmediateType.c_sqsp
get_immediate_value d ImmediateType.c_lw = get_compressed_immediate_value d ImmediateType.c_lw
get_immediate_value d ImmediateType.c_ld = get_compressed_immediate_value d ImmediateType.c_ld
get_immediate_value d ImmediateType.c_lq = get_compressed_immediate_value d ImmediateType.c_lq
get_immediate_value d ImmediateType.c_j = get_compressed_immediate_value d ImmediateType.c_j
get_immediate_value d ImmediateType.c_b = get_compressed_immediate_value d ImmediateType.c_b
get_immediate_value d ImmediateType.c_addi4spn =
    get_compressed_immediate_value d ImmediateType.c_addi4spn
get_immediate_value d ImmediateType.c_addi16sp =
    get_compressed_immediate_value d ImmediateType.c_addi16sp
get_immediate_value d ImmediateType.c_s = get_compressed_immediate_value d ImmediateType.c_s
get_immediate_value d ImmediateType.c_i = get_compressed_immediate_value d ImmediateType.c_i

-- For a register type of `w` bits.
unfoldable pub get_immediate : ℕ → ImmediateType → ℕ → ℕ
get_immediate w ImmediateType.five value = bit_and value (bitmask w (countr_zero 32 w))
get_immediate w ImmediateType.six value = bit_and value (bitmask w (countr_zero 32 w))
get_immediate w ImmediateType.seven value = bit_and value (bitmask w (countr_zero 32 w))
get_immediate w ImmediateType.i_type value = sign_extension w value 12
get_immediate w ImmediateType.b_type value = sign_extension w value 12
get_immediate w ImmediateType.s_type value = sign_extension w value 12
get_immediate w ImmediateType.u_type value = sign_extension w value 20
get_immediate w ImmediateType.j_type value = sign_extension w value 20
get_immediate w ImmediateType.c_i value = sign_extension w value 6
get_immediate w ImmediateType.c_j value = sign_extension w value 12
get_immediate w ImmediateType.c_b value = sign_extension w value 9
get_immediate w ImmediateType.c_addi16sp value = sign_extension w value 10
get_immediate w _ value = value
