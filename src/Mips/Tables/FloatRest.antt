-- ===== src/Mips/Tables/FloatRest.antt =====
-- mips/mips_instr.cpp: the other tables of coprocessor 1.
use mipt_mips.Prelude.{[], ◌∷◌}
use mipt_mips.Operation.{out_branch, out_load, out_store, out_fpu}
use mipt_mips.Mips.{
  rs_reg, rt_reg, fr, ft_reg, fs_reg, fd_reg, fcsr, zero_reg, n_format, other_format,
}
use mipt_mips.Mips.Version.{mips_i, mips_iii, mips_iv}
use mipt_mips.Mips.Tables.{Table, row, no_print, arith}

unfoldable pub isa_map_cop1 : Table
unfolding mips_i mips_iii
isa_map_cop1 =
    row 0x00 "mfc1" out_fpu 0 n_format no_print (fs_reg ∷ []) (rt_reg ∷ []) mips_i
    ∷ row 0x01 "dmfc1" out_fpu 0 n_format no_print (fs_reg ∷ []) (rt_reg ∷ []) mips_iii
    ∷ row 0x02 "cfc1" out_fpu 0 n_format no_print (fs_reg ∷ []) (rt_reg ∷ []) mips_i
    ∷ row 0x04 "mtc1" out_fpu 0 n_format no_print (rt_reg ∷ []) (fs_reg ∷ []) mips_i
    ∷ row 0x05 "dmtc1" out_fpu 0 n_format no_print (rt_reg ∷ []) (fs_reg ∷ []) mips_iii
    ∷ row 0x06 "ctc1" out_fpu 0 n_format no_print (rt_reg ∷ []) (fs_reg ∷ []) mips_iii
    ∷ []

unfoldable pub isa_map_cop1_l : Table
unfolding mips_iii
isa_map_cop1_l =
    row 0x20 "cvt.s.l" out_fpu 0 n_format no_print (fs_reg ∷ []) (fd_reg ∷ []) mips_iii
    ∷ row 0x21 "cvt.d.l" out_fpu 0 n_format no_print (fs_reg ∷ []) (fd_reg ∷ []) mips_iii
    ∷ []

unfoldable pub isa_map_cop1_w : Table
unfolding mips_i
isa_map_cop1_w =
    row 0x20 "cvt.s.w" out_fpu 0 n_format no_print (fs_reg ∷ []) (fd_reg ∷ []) mips_i
    ∷ row 0x21 "cvt.d.w" out_fpu 0 n_format no_print (fs_reg ∷ []) (fd_reg ∷ []) mips_i
    ∷ []

unfoldable pub isa_map_cop1i : Table
unfolding mips_i
isa_map_cop1i =
    row 0x0 "bc1f" out_branch 0 other_format arith (fcsr ∷ []) (zero_reg ∷ []) mips_i
    ∷ row 0x1 "bc1t" out_branch 0 other_format arith (fcsr ∷ []) (zero_reg ∷ []) mips_i
    ∷ row 0x2 "bc1fl" out_branch 0 other_format arith (fcsr ∷ []) (zero_reg ∷ []) mips_i
    ∷ row 0x3 "bc1tl" out_branch 0 other_format arith (fcsr ∷ []) (zero_reg ∷ []) mips_i
    ∷ []

unfoldable pub isa_map_cop1x : Table
unfolding mips_iv
isa_map_cop1x =
    row 0x0 "lwxc1" out_load 4 n_format no_print (rs_reg ∷ rt_reg ∷ []) (fd_reg ∷ []) mips_iv
    ∷ row 0x1 "ldxc1" out_load 8 n_format no_print (rs_reg ∷ rt_reg ∷ []) (fd_reg ∷ []) mips_iv
    ∷ row 0x8 "swxc1" out_store 4 n_format no_print (rs_reg ∷ rt_reg ∷ []) (fd_reg ∷ []) mips_iv
    ∷ row 0x9 "sdxc1" out_store 8 n_format no_print (rs_reg ∷ rt_reg ∷ []) (fd_reg ∷ []) mips_iv
    ∷ row 0x20 "madd.s" out_fpu 0 n_format no_print (fr ∷ fs_reg ∷ ft_reg ∷ []) (fd_reg ∷ [])
        mips_iv
    ∷ row 0x21 "madd.d" out_fpu 0 n_format no_print (fr ∷ fs_reg ∷ ft_reg ∷ []) (fd_reg ∷ [])
        mips_iv
    ∷ row 0x28 "msub.s" out_fpu 0 n_format no_print (fr ∷ fs_reg ∷ ft_reg ∷ []) (fd_reg ∷ [])
        mips_iv
    ∷ row 0x29 "msub.d" out_fpu 0 n_format no_print (fr ∷ fs_reg ∷ ft_reg ∷ []) (fd_reg ∷ [])
        mips_iv
    ∷ row 0x30 "nmadd.s" out_fpu 0 n_format no_print (fr ∷ fs_reg ∷ ft_reg ∷ []) (fd_reg ∷ [])
        mips_iv
    ∷ row 0x31 "nmadd.d" out_fpu 0 n_format no_print (fr ∷ fs_reg ∷ ft_reg ∷ []) (fd_reg ∷ [])
        mips_iv
    ∷ row 0x38 "nmsub.s" out_fpu 0 n_format no_print (fr ∷ fs_reg ∷ ft_reg ∷ []) (fd_reg ∷ [])
        mips_iv
    ∷ row 0x39 "nmsub.d" out_fpu 0 n_format no_print (fr ∷ fs_reg ∷ ft_reg ∷ []) (fd_reg ∷ [])
        mips_iv
    ∷ []

unfoldable pub isa_map_movcf_d : Table
unfolding mips_iv
isa_map_movcf_d =
    row 0x0 "movf.d" out_fpu 0 n_format no_print (fs_reg ∷ fcsr ∷ []) (fd_reg ∷ []) mips_iv
    ∷ row 0x1 "movt.d" out_fpu 0 n_format no_print (fs_reg ∷ fcsr ∷ []) (fd_reg ∷ []) mips_iv
    ∷ []

unfoldable pub isa_map_movcf_s : Table
unfolding mips_iv
isa_map_movcf_s =
    row 0x0 "movf.s" out_fpu 0 n_format no_print (fs_reg ∷ fcsr ∷ []) (fd_reg ∷ []) mips_iv
    ∷ row 0x1 "movt.s" out_fpu 0 n_format no_print (fs_reg ∷ fcsr ∷ []) (fd_reg ∷ []) mips_iv
    ∷ []
