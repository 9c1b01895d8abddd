-- ===== src/Mips/Tables/Float.antt =====
-- mips/mips_instr.cpp: the tables of arithmetic on single and double numbers.
use mipt_mips.Prelude.{[], ◌∷◌}
use mipt_mips.Operation.{out_fpu}
use mipt_mips.Mips.{rt_reg, ft_reg, fs_reg, fd_reg, fcsr, n_format}
use mipt_mips.Mips.Version.{mips_i, mips_ii, mips_iii, mips_iv}
use mipt_mips.Mips.Tables.{Table, row, no_print}

unfoldable pub isa_map_cop1_s : Table
unfolding mips_i mips_ii mips_iii mips_iv
isa_map_cop1_s =
    row 0x00 "add.s" out_fpu 0 n_format no_print (fs_reg ∷ ft_reg ∷ []) (fd_reg ∷ []) mips_i
    ∷ row 0x01 "sub.s" out_fpu 0 n_format no_print (fs_reg ∷ ft_reg ∷ []) (fd_reg ∷ []) mips_i
    ∷ row 0x02 "mul.s" out_fpu 0 n_format no_print (fs_reg ∷ ft_reg ∷ []) (fd_reg ∷ []) mips_i
    ∷ row 0x03 "div.s" out_fpu 0 n_format no_print (fs_reg ∷ ft_reg ∷ []) (fd_reg ∷ []) mips_i
    ∷ row 0x04 "sqrt.s" out_fpu 0 n_format no_print (fs_reg ∷ []) (fd_reg ∷ []) mips_ii
    ∷ row 0x05 "abs.s" out_fpu 0 n_format no_print (fs_reg ∷ []) (fd_reg ∷ []) mips_i
    ∷ row 0x06 "mov.s" out_fpu 0 n_format no_print (fs_reg ∷ []) (fd_reg ∷ []) mips_i
    ∷ row 0x07 "neg.s" out_fpu 0 n_format no_print (fs_reg ∷ []) (fd_reg ∷ []) mips_i
    ∷ row 0x08 "round.l.s" out_fpu 0 n_format no_print (fs_reg ∷ []) (fd_reg ∷ []) mips_iii
    ∷ row 0x09 "trunc.l.s" out_fpu 0 n_format no_print (fs_reg ∷ []) (fd_reg ∷ []) mips_iii
    ∷ row 0x0a "ceil.l.s" out_fpu 0 n_format no_print (fs_reg ∷ []) (fd_reg ∷ []) mips_iii
    ∷ row 0x0b "floor.l.s" out_fpu 0 n_format no_print (fs_reg ∷ []) (fd_reg ∷ []) mips_iii
    ∷ row 0x0c "round.w.s" out_fpu 0 n_format no_print (fs_reg ∷ []) (fd_reg ∷ []) mips_ii
    ∷ row 0x0d "trunc.w.s" out_fpu 0 n_format no_print (fs_reg ∷ []) (fd_reg ∷ []) mips_ii
    ∷ row 0x0e "ceil.w.s" out_fpu 0 n_format no_print (fs_reg ∷ []) (fd_reg ∷ []) mips_ii
    ∷ row 0x0f "floor.w.s" out_fpu 0 n_format no_print (fs_reg ∷ []) (fd_reg ∷ []) mips_ii
    ∷ row 0x12 "movz.s" out_fpu 0 n_format no_print (fs_reg ∷ rt_reg ∷ []) (fd_reg ∷ []) mips_iv
    ∷ row 0x13 "movn.s" out_fpu 0 n_format no_print (fs_reg ∷ rt_reg ∷ []) (fd_reg ∷ []) mips_iv
    ∷ row 0x15 "recip.s" out_fpu 0 n_format no_print (fs_reg ∷ []) (fd_reg ∷ []) mips_iv
    ∷ row 0x16 "rsqrt.s" out_fpu 0 n_format no_print (fs_reg ∷ []) (fd_reg ∷ []) mips_iv
    ∷ row 0x21 "cvt.d.s" out_fpu 0 n_format no_print (fs_reg ∷ []) (fd_reg ∷ []) mips_i
    ∷ row 0x24 "cvt.w.s" out_fpu 0 n_format no_print (fs_reg ∷ []) (fd_reg ∷ []) mips_i
    ∷ row 0x25 "cvt.l.s" out_fpu 0 n_format no_print (fs_reg ∷ []) (fd_reg ∷ []) mips_iii
    ∷ row 0x30 "c.f.s" out_fpu 0 n_format no_print (fs_reg ∷ ft_reg ∷ []) (fcsr ∷ []) mips_i
    ∷ row 0x31 "c.un.s" out_fpu 0 n_format no_print (fs_reg ∷ ft_reg ∷ []) (fcsr ∷ []) mips_i
    ∷ row 0x32 "c.eq.s" out_fpu 0 n_format no_print (fs_reg ∷ ft_reg ∷ []) (fcsr ∷ []) mips_i
    ∷ row 0x33 "c.ueq.s" out_fpu 0 n_format no_print (fs_reg ∷ ft_reg ∷ []) (fcsr ∷ []) mips_i
    ∷ row 0x34 "c.olt.s" out_fpu 0 n_format no_print (fs_reg ∷ ft_reg ∷ []) (fcsr ∷ []) mips_i
    ∷ row 0x35 "c.ult.s" out_fpu 0 n_format no_print (fs_reg ∷ ft_reg ∷ []) (fcsr ∷ []) mips_i
    ∷ row 0x36 "c.ole.s" out_fpu 0 n_format no_print (fs_reg ∷ ft_reg ∷ []) (fcsr ∷ []) mips_i
    ∷ row 0x37 "c.ule.s" out_fpu 0 n_format no_print (fs_reg ∷ ft_reg ∷ []) (fcsr ∷ []) mips_i
    ∷ row 0x38 "c.sf.s" out_fpu 0 n_format no_print (fs_reg ∷ ft_reg ∷ []) (fcsr ∷ []) mips_i
    ∷ row 0x39 "c.ngle.s" out_fpu 0 n_format no_print (fs_reg ∷ ft_reg ∷ []) (fcsr ∷ []) mips_i
    ∷ row 0x3a "c.seq.s" out_fpu 0 n_format no_print (fs_reg ∷ ft_reg ∷ []) (fcsr ∷ []) mips_i
    ∷ row 0x3b "c.ngl.s" out_fpu 0 n_format no_print (fs_reg ∷ ft_reg ∷ []) (fcsr ∷ []) mips_i
    ∷ row 0x3c "c.lt.s" out_fpu 0 n_format no_print (fs_reg ∷ ft_reg ∷ []) (fcsr ∷ []) mips_i
    ∷ row 0x3d "c.nge.s" out_fpu 0 n_format no_print (fs_reg ∷ ft_reg ∷ []) (fcsr ∷ []) mips_i
    ∷ row 0x3e "c.le.s" out_fpu 0 n_format no_print (fs_reg ∷ ft_reg ∷ []) (fcsr ∷ []) mips_i
    ∷ row 0x3f "c.ngt.s" out_fpu 0 n_format no_print (fs_reg ∷ ft_reg ∷ []) (fcsr ∷ []) mips_i
    ∷ []

unfoldable pub isa_map_cop1_d : Table
unfolding mips_i mips_ii mips_iii mips_iv
isa_map_cop1_d =
    row 0x00 "add.d" out_fpu 0 n_format no_print (fs_reg ∷ ft_reg ∷ []) (fd_reg ∷ []) mips_i
    ∷ row 0x01 "sub.d" out_fpu 0 n_format no_print (fs_reg ∷ ft_reg ∷ []) (fd_reg ∷ []) mips_i
    ∷ row 0x02 "mul.d" out_fpu 0 n_format no_print (fs_reg ∷ ft_reg ∷ []) (fd_reg ∷ []) mips_i
    ∷ row 0x03 "div.d" out_fpu 0 n_format no_print (fs_reg ∷ ft_reg ∷ []) (fd_reg ∷ []) mips_i
    ∷ row 0x04 "sqrt.d" out_fpu 0 n_format no_print (fs_reg ∷ []) (fd_reg ∷ []) mips_ii
    ∷ row 0x05 "abs.d" out_fpu 0 n_format no_print (fs_reg ∷ []) (fd_reg ∷ []) mips_i
    ∷ row 0x06 "mov.d" out_fpu 0 n_format no_print (fs_reg ∷ []) (fd_reg ∷ []) mips_i
    ∷ row 0x07 "neg.d" out_fpu 0 n_format no_print (fs_reg ∷ []) (fd_reg ∷ []) mips_i
    ∷ row 0x08 "round.l.d" out_fpu 0 n_format no_print (fs_reg ∷ []) (fd_reg ∷ []) mips_iii
    ∷ row 0x09 "trunc.l.d" out_fpu 0 n_format no_print (fs_reg ∷ []) (fd_reg ∷ []) mips_iii
    ∷ row 0x0a "ceil.l.d" out_fpu 0 n_format no_print (fs_reg ∷ []) (fd_reg ∷ []) mips_iii
    ∷ row 0x0b "floor.l.d" out_fpu 0 n_format no_print (fs_reg ∷ []) (fd_reg ∷ []) mips_iii
    ∷ row 0x0c "round.w.d" out_fpu 0 n_format no_print (fs_reg ∷ []) (fd_reg ∷ []) mips_ii
    ∷ row 0x0d "trunc.w.d" out_fpu 0 n_format no_print (fs_reg ∷ []) (fd_reg ∷ []) mips_ii
    ∷ row 0x0e "ceil.w.d" out_fpu 0 n_format no_print (fs_reg ∷ []) (fd_reg ∷ []) mips_ii
    ∷ row 0x0f "floor.w.d" out_fpu 0 n_format no_print (fs_reg ∷ []) (fd_reg ∷ []) mips_ii
    ∷ row 0x12 "movz.d" out_fpu 0 n_format no_print (fs_reg ∷ rt_reg ∷ []) (fd_reg ∷ []) mips_iv
    ∷ row 0x13 "movn.d" out_fpu 0 n_format no_print (fs_reg ∷ rt_reg ∷ []) (fd_reg ∷ []) mips_iv
    ∷ row 0x15 "recip.d" out_fpu 0 n_format no_print (fs_reg ∷ []) (fd_reg ∷ []) mips_iv
    ∷ row 0x16 "rsqrt.d" out_fpu 0 n_format no_print (fs_reg ∷ []) (fd_reg ∷ []) mips_iv
    ∷ row 0x20 "cvt.s.d" out_fpu 0 n_format no_print (fs_reg ∷ []) (fd_reg ∷ []) mips_i
    ∷ row 0x24 "cvt.w.d" out_fpu 0 n_format no_print (fs_reg ∷ []) (fd_reg ∷ []) mips_i
    ∷ row 0x25 "cvt.l.d" out_fpu 0 n_format no_print (fs_reg ∷ []) (fd_reg ∷ []) mips_iii
    ∷ row 0x30 "c.f.d" out_fpu 0 n_format no_print (fs_reg ∷ ft_reg ∷ []) (fcsr ∷ []) mips_i
    ∷ row 0x31 "c.un.d" out_fpu 0 n_format no_print (fs_reg ∷ ft_reg ∷ []) (fcsr ∷ []) mips_i
    ∷ row 0x32 "c.eq.d" out_fpu 0 n_format no_print (fs_reg ∷ ft_reg ∷ []) (fcsr ∷ []) mips_i
    ∷ row 0x33 "c.ueq.d" out_fpu 0 n_format no_print (fs_reg ∷ ft_reg ∷ []) (fcsr ∷ []) mips_i
    ∷ row 0x34 "c.olt.d" out_fpu 0 n_format no_print (fs_reg ∷ ft_reg ∷ []) (fcsr ∷ []) mips_i
    ∷ row 0x35 "c.ult.d" out_fpu 0 n_format no_print (fs_reg ∷ ft_reg ∷ []) (fcsr ∷ []) mips_i
    ∷ row 0x36 "c.ole.d" out_fpu 0 n_format no_print (fs_reg ∷ ft_reg ∷ []) (fcsr ∷ []) mips_i
    ∷ row 0x37 "c.ule.d" out_fpu 0 n_format no_print (fs_reg ∷ ft_reg ∷ []) (fcsr ∷ []) mips_i
    ∷ row 0x38 "c.sf.d" out_fpu 0 n_format no_print (fs_reg ∷ ft_reg ∷ []) (fcsr ∷ []) mips_i
    ∷ row 0x39 "c.ngle.d" out_fpu 0 n_format no_print (fs_reg ∷ ft_reg ∷ []) (fcsr ∷ []) mips_i
    ∷ row 0x3a "c.seq.d" out_fpu 0 n_format no_print (fs_reg ∷ ft_reg ∷ []) (fcsr ∷ []) mips_i
    ∷ row 0x3b "c.ngl.d" out_fpu 0 n_format no_print (fs_reg ∷ ft_reg ∷ []) (fcsr ∷ []) mips_i
    ∷ row 0x3c "c.lt.d" out_fpu 0 n_format no_print (fs_reg ∷ ft_reg ∷ []) (fcsr ∷ []) mips_i
    ∷ row 0x3d "c.nge.d" out_fpu 0 n_format no_print (fs_reg ∷ ft_reg ∷ []) (fcsr ∷ []) mips_i
    ∷ row 0x3e "c.le.d" out_fpu 0 n_format no_print (fs_reg ∷ ft_reg ∷ []) (fcsr ∷ []) mips_i
    ∷ row 0x3f "c.ngt.d" out_fpu 0 n_format no_print (fs_reg ∷ ft_reg ∷ []) (fcsr ∷ []) mips_i
    ∷ []
