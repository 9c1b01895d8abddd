-- ===== src/Mips/Tables/Special.antt =====
-- mips/mips_instr.cpp: the tables that the opcodes 0, 1, 0x10 and 0x1C lead to.
use mipt_mips.Prelude.{[], ◌∷◌}
use mipt_mips.Operation.{
  out_arithm, out_divmult, out_r_accum, out_r_condm, out_r_jump, out_syscall, out_break,
  out_r_subtr, out_branch, out_branch_likely, out_trap, out_fpu,
}
use mipt_mips.Mips.{
  rs_reg, rt_reg, rd_reg, cp0_rd, sr, epc, fcsr, zero_reg, ra, hi, lo, n_format, s_format,
  other_format,
}
use mipt_mips.Mips.Version.{mips_32, mips_64, mips_i, mips_ii, mips_iii, mips_iv, join}
use mipt_mips.Mips.Tables.{Table, row, no_print, shift, arith, trap}

unfoldable pub isa_map_r : Table
unfolding mips_32 mips_i mips_ii mips_iii mips_iv join
isa_map_r =
    row 0x0 "sll" out_arithm 0 s_format shift (rt_reg ∷ []) (rd_reg ∷ []) mips_i
    ∷ row 0x2 "srl" out_arithm 0 s_format shift (rt_reg ∷ []) (rd_reg ∷ []) mips_i
    ∷ row 0x3 "sra" out_arithm 0 s_format shift (rt_reg ∷ []) (rd_reg ∷ []) mips_i
    ∷ row 0x4 "sllv" out_arithm 0 n_format no_print (rt_reg ∷ rs_reg ∷ []) (rd_reg ∷ []) mips_i
    ∷ row 0x6 "srlv" out_arithm 0 n_format no_print (rt_reg ∷ rs_reg ∷ []) (rd_reg ∷ []) mips_i
    ∷ row 0x7 "srav" out_arithm 0 n_format no_print (rt_reg ∷ rs_reg ∷ []) (rd_reg ∷ []) mips_i
    ∷ row 0x8 "jr" out_r_jump 0 n_format no_print (rs_reg ∷ []) (zero_reg ∷ []) mips_i
    ∷ row 0x9 "jalr" out_r_jump 0 n_format no_print (rs_reg ∷ []) (rd_reg ∷ []) mips_i
    ∷ row 0xa "movz" out_r_condm 0 n_format no_print (rs_reg ∷ rt_reg ∷ []) (rd_reg ∷ [])
        (join mips_iv mips_32)
    ∷ row 0xb "movn" out_r_condm 0 n_format no_print (rs_reg ∷ rt_reg ∷ []) (rd_reg ∷ [])
        (join mips_iv mips_32)
    ∷ row 0xc "syscall" out_syscall 0 n_format no_print [] (zero_reg ∷ []) mips_i
    ∷ row 0xd "break" out_break 0 n_format no_print [] (zero_reg ∷ []) mips_i
    ∷ row 0x10 "mfhi" out_arithm 0 n_format no_print (hi ∷ []) (rd_reg ∷ []) mips_i
    ∷ row 0x11 "mthi" out_arithm 0 n_format no_print (rs_reg ∷ []) (hi ∷ []) mips_i
    ∷ row 0x12 "mflo" out_arithm 0 n_format no_print (lo ∷ []) (rd_reg ∷ []) mips_i
    ∷ row 0x13 "mtlo" out_arithm 0 n_format no_print (rs_reg ∷ []) (lo ∷ []) mips_i
    ∷ row 0x14 "dsllv" out_arithm 0 n_format no_print (rt_reg ∷ rs_reg ∷ []) (rd_reg ∷ []) mips_iii
    ∷ row 0x16 "dsrlv" out_arithm 0 n_format no_print (rt_reg ∷ rs_reg ∷ []) (rd_reg ∷ []) mips_iii
    ∷ row 0x17 "dsrav" out_arithm 0 n_format no_print (rt_reg ∷ rs_reg ∷ []) (rd_reg ∷ []) mips_iii
    ∷ row 0x18 "mult" out_divmult 0 n_format no_print (rs_reg ∷ rt_reg ∷ []) (lo ∷ hi ∷ []) mips_i
    ∷ row 0x19 "multu" out_divmult 0 n_format no_print (rs_reg ∷ rt_reg ∷ []) (lo ∷ hi ∷ []) mips_i
    ∷ row 0x1a "div" out_divmult 0 n_format no_print (rs_reg ∷ rt_reg ∷ []) (lo ∷ hi ∷ []) mips_i
    ∷ row 0x1b "divu" out_divmult 0 n_format no_print (rs_reg ∷ rt_reg ∷ []) (lo ∷ hi ∷ []) mips_i
    ∷ row 0x1c "dmult" out_divmult 0 n_format no_print (rs_reg ∷ rt_reg ∷ []) (lo ∷ hi ∷ [])
        mips_iii
    ∷ row 0x1d "dmultu" out_divmult 0 n_format no_print (rs_reg ∷ rt_reg ∷ []) (lo ∷ hi ∷ [])
        mips_iii
    ∷ row 0x1e "ddiv" out_divmult 0 n_format no_print (rs_reg ∷ rt_reg ∷ []) (lo ∷ hi ∷ []) mips_iii
    ∷ row 0x1f "ddivu" out_divmult 0 n_format no_print (rs_reg ∷ rt_reg ∷ []) (lo ∷ hi ∷ [])
        mips_iii
    ∷ row 0x20 "add" out_arithm 0 n_format no_print (rs_reg ∷ rt_reg ∷ []) (rd_reg ∷ []) mips_i
    ∷ row 0x21 "addu" out_arithm 0 n_format no_print (rs_reg ∷ rt_reg ∷ []) (rd_reg ∷ []) mips_i
    ∷ row 0x22 "sub" out_arithm 0 n_format no_print (rs_reg ∷ rt_reg ∷ []) (rd_reg ∷ []) mips_i
    ∷ row 0x23 "subu" out_arithm 0 n_format no_print (rs_reg ∷ rt_reg ∷ []) (rd_reg ∷ []) mips_i
    ∷ row 0x24 "and" out_arithm 0 n_format no_print (rs_reg ∷ rt_reg ∷ []) (rd_reg ∷ []) mips_i
    ∷ row 0x25 "or" out_arithm 0 n_format no_print (rs_reg ∷ rt_reg ∷ []) (rd_reg ∷ []) mips_i
    ∷ row 0x26 "xor" out_arithm 0 n_format no_print (rs_reg ∷ rt_reg ∷ []) (rd_reg ∷ []) mips_i
    ∷ row 0x27 "nor" out_arithm 0 n_format no_print (rs_reg ∷ rt_reg ∷ []) (rd_reg ∷ []) mips_i
    ∷ row 0x2a "slt" out_arithm 0 n_format no_print (rs_reg ∷ rt_reg ∷ []) (rd_reg ∷ []) mips_i
    ∷ row 0x2b "sltu" out_arithm 0 n_format no_print (rs_reg ∷ rt_reg ∷ []) (rd_reg ∷ []) mips_i
    ∷ row 0x2c "dadd" out_arithm 0 n_format no_print (rs_reg ∷ rt_reg ∷ []) (rd_reg ∷ []) mips_iii
    ∷ row 0x2d "daddu" out_arithm 0 n_format no_print (rs_reg ∷ rt_reg ∷ []) (rd_reg ∷ []) mips_iii
    ∷ row 0x2e "dsub" out_arithm 0 n_format no_print (rs_reg ∷ rt_reg ∷ []) (rd_reg ∷ []) mips_iii
    ∷ row 0x2f "dsubu" out_arithm 0 n_format no_print (rs_reg ∷ rt_reg ∷ []) (rd_reg ∷ []) mips_iii
    ∷ row 0x30 "tge" out_trap 0 n_format no_print (rs_reg ∷ rt_reg ∷ []) (zero_reg ∷ []) mips_ii
    ∷ row 0x31 "tgeu" out_trap 0 n_format no_print (rs_reg ∷ rt_reg ∷ []) (zero_reg ∷ []) mips_ii
    ∷ row 0x32 "tlt" out_trap 0 n_format no_print (rs_reg ∷ rt_reg ∷ []) (zero_reg ∷ []) mips_ii
    ∷ row 0x33 "tltu" out_trap 0 n_format no_print (rs_reg ∷ rt_reg ∷ []) (zero_reg ∷ []) mips_ii
    ∷ row 0x34 "teq" out_trap 0 n_format no_print (rs_reg ∷ rt_reg ∷ []) (zero_reg ∷ []) mips_ii
    ∷ row 0x36 "tne" out_trap 0 n_format no_print (rs_reg ∷ rt_reg ∷ []) (zero_reg ∷ []) mips_ii
    ∷ row 0x38 "dsll" out_arithm 0 s_format shift (rt_reg ∷ []) (rd_reg ∷ []) mips_iii
    ∷ row 0x3a "dsrl" out_arithm 0 s_format shift (rt_reg ∷ []) (rd_reg ∷ []) mips_iii
    ∷ row 0x3b "dsra" out_arithm 0 s_format shift (rt_reg ∷ []) (rd_reg ∷ []) mips_iii
    ∷ row 0x3c "dsll32" out_arithm 0 s_format shift (rt_reg ∷ []) (rd_reg ∷ []) mips_iii
    ∷ row 0x3e "dsrl32" out_arithm 0 s_format shift (rt_reg ∷ []) (rd_reg ∷ []) mips_iii
    ∷ row 0x3f "dsra32" out_arithm 0 s_format shift (rt_reg ∷ []) (rd_reg ∷ []) mips_iii
    ∷ []

unfoldable pub isa_map_ri : Table
unfolding mips_i mips_ii
isa_map_ri =
    row 0x0 "bltz" out_branch 0 other_format arith (rs_reg ∷ []) (zero_reg ∷ []) mips_i
    ∷ row 0x1 "bgez" out_branch 0 other_format arith (rs_reg ∷ []) (zero_reg ∷ []) mips_i
    ∷ row 0x2 "bltzl" out_branch_likely 0 other_format arith (rs_reg ∷ []) (zero_reg ∷ []) mips_ii
    ∷ row 0x3 "bgezl" out_branch_likely 0 other_format arith (rs_reg ∷ []) (zero_reg ∷ []) mips_ii
    ∷ row 0x8 "tgei" out_trap 0 other_format trap (rs_reg ∷ []) (zero_reg ∷ []) mips_ii
    ∷ row 0x9 "tgeiu" out_trap 0 other_format trap (rs_reg ∷ []) (zero_reg ∷ []) mips_ii
    ∷ row 0xa "tlti" out_trap 0 other_format trap (rs_reg ∷ []) (zero_reg ∷ []) mips_ii
    ∷ row 0xb "tltiu" out_trap 0 other_format trap (rs_reg ∷ []) (zero_reg ∷ []) mips_ii
    ∷ row 0xc "teqi" out_trap 0 other_format trap (rs_reg ∷ []) (zero_reg ∷ []) mips_ii
    ∷ row 0xe "tnei" out_trap 0 other_format trap (rs_reg ∷ []) (zero_reg ∷ []) mips_ii
    ∷ row 0x10 "bltzal" out_branch 0 other_format arith (rs_reg ∷ []) (ra ∷ []) mips_i
    ∷ row 0x11 "bgezal" out_branch 0 other_format arith (rs_reg ∷ []) (ra ∷ []) mips_i
    ∷ row 0x12 "bltzall" out_branch_likely 0 other_format arith (rs_reg ∷ []) (ra ∷ []) mips_ii
    ∷ row 0x13 "bgezall" out_branch_likely 0 other_format arith (rs_reg ∷ []) (ra ∷ []) mips_ii
    ∷ []

unfoldable pub isa_map_mips32 : Table
unfolding mips_32 mips_64
isa_map_mips32 =
    row 0x00 "madd" out_r_accum 0 n_format no_print (rs_reg ∷ rt_reg ∷ []) (lo ∷ hi ∷ []) mips_32
    ∷ row 0x01 "maddu" out_r_accum 0 n_format no_print (rs_reg ∷ rt_reg ∷ []) (lo ∷ hi ∷ []) mips_32
    ∷ row 0x02 "mul" out_arithm 0 n_format no_print (rs_reg ∷ rt_reg ∷ []) (rd_reg ∷ []) mips_32
    ∷ row 0x04 "msub" out_r_subtr 0 n_format no_print (rs_reg ∷ rt_reg ∷ []) (lo ∷ hi ∷ []) mips_32
    ∷ row 0x05 "msubu" out_r_subtr 0 n_format no_print (rs_reg ∷ rt_reg ∷ []) (lo ∷ hi ∷ []) mips_32
    ∷ row 0x20 "clz" out_arithm 0 n_format no_print (rs_reg ∷ []) (rd_reg ∷ []) mips_32
    ∷ row 0x21 "clo" out_arithm 0 n_format no_print (rs_reg ∷ []) (rd_reg ∷ []) mips_32
    ∷ row 0x24 "dclz" out_arithm 0 n_format no_print (rs_reg ∷ []) (rd_reg ∷ []) mips_64
    ∷ row 0x25 "dclo" out_arithm 0 n_format no_print (rs_reg ∷ []) (rd_reg ∷ []) mips_64
    ∷ []

unfoldable pub isa_map_cop0_rs : Table
unfolding mips_i
isa_map_cop0_rs =
    row 0x00 "mfc0" out_arithm 0 n_format no_print (cp0_rd ∷ []) (rt_reg ∷ []) mips_i
    ∷ row 0x04 "mtc0" out_arithm 0 n_format no_print (rt_reg ∷ []) (cp0_rd ∷ []) mips_i
    ∷ []

unfoldable pub isa_map_cop0_funct : Table
unfolding mips_i
isa_map_cop0_funct =
    row 0x18 "eret" out_r_jump 0 n_format no_print (epc ∷ sr ∷ []) (sr ∷ []) mips_i ∷ []

unfoldable pub isa_map_movci : Table
unfolding mips_iv
isa_map_movci =
    row 0x0 "movf" out_fpu 0 n_format no_print (rs_reg ∷ fcsr ∷ []) (rd_reg ∷ []) mips_iv
    ∷ row 0x1 "movt" out_fpu 0 n_format no_print (rs_reg ∷ fcsr ∷ []) (rd_reg ∷ []) mips_iv
    ∷ []
