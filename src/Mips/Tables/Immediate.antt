-- ===== src/Mips/Tables/Immediate.antt =====
-- mips/mips_instr.cpp: the table of I and J instructions.
use mipt_mips.Prelude.{[], ◌∷◌}
use mipt_mips.Operation.{
  out_arithm, out_branch, out_branch_likely, out_load, out_loadu, out_partial_load, out_store,
  out_j_jump,
}
use mipt_mips.Mips.{rs_reg, rt_reg, ft_reg, zero_reg, ra, j_format, l_format, other_format}
use mipt_mips.Mips.Version.{mips_i, mips_ii, mips_iii}
use mipt_mips.Mips.Tables.{Table, row, logic, arith, addr, jump}

unfoldable pub isa_map_ij : Table
unfolding mips_i mips_ii mips_iii
isa_map_ij =
    row 0x2 "j" out_j_jump 0 j_format jump [] (zero_reg ∷ []) mips_i
    ∷ row 0x3 "jal" out_j_jump 0 j_format jump [] (ra ∷ []) mips_i
    ∷ row 0x4 "beq" out_branch 0 other_format arith (rs_reg ∷ rt_reg ∷ []) (zero_reg ∷ []) mips_i
    ∷ row 0x5 "bne" out_branch 0 other_format arith (rs_reg ∷ rt_reg ∷ []) (zero_reg ∷ []) mips_i
    ∷ row 0x6 "blez" out_branch 0 other_format arith (rs_reg ∷ []) (zero_reg ∷ []) mips_i
    ∷ row 0x7 "bgtz" out_branch 0 other_format arith (rs_reg ∷ []) (zero_reg ∷ []) mips_i
    ∷ row 0x8 "addi" out_arithm 0 other_format arith (rs_reg ∷ []) (rt_reg ∷ []) mips_i
    ∷ row 0x9 "addiu" out_arithm 0 other_format arith (rs_reg ∷ []) (rt_reg ∷ []) mips_i
    ∷ row 0xa "slti" out_arithm 0 other_format arith (rs_reg ∷ []) (rt_reg ∷ []) mips_i
    ∷ row 0xb "sltiu" out_arithm 0 other_format arith (rs_reg ∷ []) (rt_reg ∷ []) mips_i
    ∷ row 0xc "andi" out_arithm 0 l_format logic (rs_reg ∷ []) (rt_reg ∷ []) mips_i
    ∷ row 0xd "ori" out_arithm 0 l_format logic (rs_reg ∷ []) (rt_reg ∷ []) mips_i
    ∷ row 0xe "xori" out_arithm 0 l_format logic (rs_reg ∷ []) (rt_reg ∷ []) mips_i
    ∷ row 0xf "lui" out_arithm 0 other_format logic [] (rt_reg ∷ []) mips_i
    ∷ row 0x14 "beql" out_branch_likely 0 other_format arith (rs_reg ∷ rt_reg ∷ []) (zero_reg ∷ [])
        mips_ii
    ∷ row 0x15 "bnel" out_branch_likely 0 other_format arith (rs_reg ∷ rt_reg ∷ []) (zero_reg ∷ [])
        mips_ii
    ∷ row 0x16 "blezl" out_branch_likely 0 other_format arith (rs_reg ∷ rt_reg ∷ []) (zero_reg ∷ [])
        mips_ii
    ∷ row 0x17 "bgtzl" out_branch_likely 0 other_format arith (rs_reg ∷ rt_reg ∷ []) (zero_reg ∷ [])
        mips_ii
    ∷ row 0x1a "ldl" out_load 8 other_format addr (rs_reg ∷ []) (rt_reg ∷ []) mips_iii
    ∷ row 0x1b "ldr" out_load 8 other_format addr (rs_reg ∷ []) (rt_reg ∷ []) mips_iii
    ∷ row 0x18 "daddi" out_arithm 0 other_format arith (rs_reg ∷ []) (rt_reg ∷ []) mips_iii
    ∷ row 0x19 "daddiu" out_arithm 0 other_format arith (rs_reg ∷ []) (rt_reg ∷ []) mips_iii
    ∷ row 0x20 "lb" out_load 1 other_format addr (rs_reg ∷ []) (rt_reg ∷ []) mips_i
    ∷ row 0x21 "lh" out_load 2 other_format addr (rs_reg ∷ []) (rt_reg ∷ []) mips_i
    ∷ row 0x22 "lwl" out_partial_load 4 other_format addr (rs_reg ∷ []) (rt_reg ∷ []) mips_i
    ∷ row 0x23 "lw" out_load 4 other_format addr (rs_reg ∷ []) (rt_reg ∷ []) mips_i
    ∷ row 0x24 "lbu" out_loadu 1 other_format addr (rs_reg ∷ []) (rt_reg ∷ []) mips_i
    ∷ row 0x25 "lhu" out_loadu 2 other_format addr (rs_reg ∷ []) (rt_reg ∷ []) mips_i
    ∷ row 0x26 "lwr" out_partial_load 4 other_format addr (rs_reg ∷ []) (rt_reg ∷ []) mips_i
    ∷ row 0x27 "lwu" out_loadu 4 other_format addr (rs_reg ∷ []) (rt_reg ∷ []) mips_i
    ∷ row 0x28 "sb" out_store 1 other_format addr (rs_reg ∷ rt_reg ∷ []) (zero_reg ∷ []) mips_i
    ∷ row 0x29 "sh" out_store 2 other_format addr (rs_reg ∷ rt_reg ∷ []) (zero_reg ∷ []) mips_i
    ∷ row 0x2a "swl" out_store 4 other_format addr (rs_reg ∷ rt_reg ∷ []) (zero_reg ∷ []) mips_i
    ∷ row 0x2b "sw" out_store 4 other_format addr (rs_reg ∷ rt_reg ∷ []) (zero_reg ∷ []) mips_i
    ∷ row 0x2c "sdl" out_store 8 other_format addr (rs_reg ∷ rt_reg ∷ []) (zero_reg ∷ []) mips_iii
    ∷ row 0x2d "sdr" out_store 8 other_format addr (rs_reg ∷ rt_reg ∷ []) (zero_reg ∷ []) mips_iii
    ∷ row 0x2e "swr" out_store 4 other_format addr (rs_reg ∷ rt_reg ∷ []) (zero_reg ∷ []) mips_i
    ∷ row 0x30 "ll" out_load 2 other_format addr (rs_reg ∷ []) (rt_reg ∷ []) mips_i
    ∷ row 0x31 "lwc1" out_load 4 other_format addr (rs_reg ∷ []) (ft_reg ∷ []) mips_i
    ∷ row 0x35 "ldc1" out_load 8 other_format addr (rs_reg ∷ []) (ft_reg ∷ []) mips_ii
    ∷ row 0x37 "ld" out_load 8 other_format addr (rs_reg ∷ []) (rt_reg ∷ []) mips_iii
    ∷ row 0x38 "sc" out_store 2 other_format addr (rs_reg ∷ rt_reg ∷ []) (zero_reg ∷ []) mips_i
    ∷ row 0x39 "swc1" out_store 4 other_format addr (rs_reg ∷ []) (ft_reg ∷ []) mips_i
    ∷ row 0x3d "sdc1" out_store 8 other_format addr (rs_reg ∷ []) (ft_reg ∷ []) mips_ii
    ∷ row 0x3f "sd" out_store 8 other_format addr (rs_reg ∷ rt_reg ∷ []) (zero_reg ∷ []) mips_iii
    ∷ []
