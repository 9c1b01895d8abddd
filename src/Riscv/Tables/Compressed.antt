-- ===== src/Riscv/Tables/Compressed.antt =====
-- risc_v/riscv_instr.cpp: the entries of the subset C.
use mipt_mips.Prelude.{ℕ, List, [], ◌∷◌}
use mipt_mips.Operation.{out_arithm, out_branch, out_break, out_load, out_store}
use mipt_mips.Mips.Tables.{addr, arith, jump_rel, logic, no_print}
use mipt_mips.Riscv.{ra, rd, rd_3bit, reg_zero, rs1_3bit, rs2_3bit, rs2_cmp, sp}
use mipt_mips.Riscv.Formats.{
  c_addi16sp, c_addi4spn, c_b, c_i, c_j, c_ld, c_ldsp, c_lq, c_lqsp, c_lw, c_lwsp, c_s, c_sdsp,
  c_sqsp, c_swsp, no_type,
}
use mipt_mips.Riscv.Executors.{
  execute_add, execute_addi, execute_addiw, execute_addw, execute_and, execute_andi, execute_beq,
  execute_bne, execute_ebreak, execute_jal, execute_jalr, execute_load, execute_lui, execute_or,
  execute_slli, execute_srai, execute_srli, execute_store, execute_sub, execute_subw, execute_xor,
}
use mipt_mips.Riscv.Tables.{
  Opcodes, RiscvTableEntry, row, any_width, from_64, only_128, only_32, up_to_64, subset_c,
}

module _ (w : ℕ) (opcodes : Opcodes) where
  unfoldable pub cmd_desc_c : List RiscvTableEntry
  cmd_desc_c =
      row opcodes subset_c "c_ebreak" (execute_ebreak w) out_break no_type no_print
        (reg_zero ∷ reg_zero ∷ []) (reg_zero ∷ []) 0 any_width
      ∷ row opcodes subset_c "c_nop" (execute_or w) out_arithm no_type no_print
          (reg_zero ∷ reg_zero ∷ []) (reg_zero ∷ []) 0 any_width
      ∷ row opcodes subset_c "c_j" (execute_jal w) out_branch c_j jump_rel
          (reg_zero ∷ reg_zero ∷ []) (reg_zero ∷ []) 0 any_width
      ∷ row opcodes subset_c "c_jal" (execute_jal w) out_branch c_j jump_rel
          (reg_zero ∷ reg_zero ∷ []) (ra ∷ []) 0 only_32
      ∷ row opcodes subset_c "c_jr" (execute_jalr w) out_branch no_type no_print
          (rd ∷ reg_zero ∷ []) (reg_zero ∷ []) 0 any_width
      ∷ row opcodes subset_c "c_jalr" (execute_jalr w) out_branch no_type no_print
          (rd ∷ reg_zero ∷ []) (ra ∷ []) 0 any_width
      ∷ row opcodes subset_c "c_beqz" (execute_beq w) out_branch c_b arith
          (rs1_3bit ∷ reg_zero ∷ []) (reg_zero ∷ []) 0 any_width
      ∷ row opcodes subset_c "c_bnez" (execute_bne w) out_branch c_b arith
          (rs1_3bit ∷ reg_zero ∷ []) (reg_zero ∷ []) 0 any_width
      ∷ row opcodes subset_c "c_lwsp" (execute_load w) out_load c_lwsp addr (sp ∷ reg_zero ∷ [])
          (rd ∷ []) 4 any_width
      ∷ row opcodes subset_c "c_ldsp" (execute_load w) out_load c_ldsp addr (sp ∷ reg_zero ∷ [])
          (rd ∷ []) 8 from_64
      ∷ row opcodes subset_c "c_lqsp" (execute_load w) out_load c_lqsp addr (sp ∷ reg_zero ∷ [])
          (rd ∷ []) 16 only_128
      ∷ row opcodes subset_c "c_lw" (execute_load w) out_load c_lw addr (rs1_3bit ∷ reg_zero ∷ [])
          (rd_3bit ∷ []) 4 any_width
      ∷ row opcodes subset_c "c_ld" (execute_load w) out_load c_ld addr (rs1_3bit ∷ reg_zero ∷ [])
          (rd_3bit ∷ []) 8 from_64
      ∷ row opcodes subset_c "c_lq" (execute_load w) out_load c_lq addr (rs1_3bit ∷ reg_zero ∷ [])
          (rd_3bit ∷ []) 16 only_128
      ∷ row opcodes subset_c "c_swsp" (execute_store w) out_store c_swsp addr (sp ∷ rs2_cmp ∷ [])
          (reg_zero ∷ []) 4 any_width
      ∷ row opcodes subset_c "c_sdsp" (execute_store w) out_store c_sdsp addr (sp ∷ rs2_cmp ∷ [])
          (reg_zero ∷ []) 8 from_64
      ∷ row opcodes subset_c "c_sqsp" (execute_store w) out_store c_sqsp addr (sp ∷ rs2_cmp ∷ [])
          (reg_zero ∷ []) 16 only_128
      ∷ row opcodes subset_c "c_sw" (execute_store w) out_store c_lw addr (rs1_3bit ∷ rs2_3bit ∷ [])
          (reg_zero ∷ []) 4 any_width
      ∷ row opcodes subset_c "c_sd" (execute_store w) out_store c_ld addr (rs1_3bit ∷ rs2_3bit ∷ [])
          (reg_zero ∷ []) 8 from_64
      ∷ row opcodes subset_c "c_sq" (execute_store w) out_store c_lq addr (rs1_3bit ∷ rs2_3bit ∷ [])
          (reg_zero ∷ []) 16 only_128
      ∷ row opcodes subset_c "c_addi16sp" (execute_addi w) out_arithm c_addi16sp arith
          (sp ∷ reg_zero ∷ []) (sp ∷ []) 0 any_width
      ∷ row opcodes subset_c "c_addi" (execute_addi w) out_arithm c_i arith (rd ∷ reg_zero ∷ [])
          (rd ∷ []) 0 any_width
      ∷ row opcodes subset_c "c_srli" (execute_srli w) out_arithm c_s arith
          (rs1_3bit ∷ reg_zero ∷ []) (rs1_3bit ∷ []) 0 any_width
      ∷ row opcodes subset_c "c_srai" (execute_srai w) out_arithm c_s arith
          (rs1_3bit ∷ reg_zero ∷ []) (rs1_3bit ∷ []) 0 any_width
      ∷ row opcodes subset_c "c_slli" (execute_slli w) out_arithm c_s arith (rd ∷ reg_zero ∷ [])
          (rd ∷ []) 0 any_width
      ∷ row opcodes subset_c "c_addi4spn" (execute_addi w) out_arithm c_addi4spn arith
          (sp ∷ reg_zero ∷ []) (rd_3bit ∷ []) 0 up_to_64
      ∷ row opcodes subset_c "c_addiw" (execute_addiw w) out_arithm c_i arith (rd ∷ reg_zero ∷ [])
          (rd ∷ []) 0 from_64
      ∷ row opcodes subset_c "c_li" (execute_addi w) out_arithm c_i arith (reg_zero ∷ reg_zero ∷ [])
          (rd ∷ []) 0 any_width
      ∷ row opcodes subset_c "c_lui" (execute_lui w) out_arithm c_i logic (reg_zero ∷ reg_zero ∷ [])
          (rd ∷ []) 0 any_width
      ∷ row opcodes subset_c "c_andi" (execute_andi w) out_arithm c_i arith
          (rs1_3bit ∷ reg_zero ∷ []) (rs1_3bit ∷ []) 0 any_width
      ∷ row opcodes subset_c "c_sub" (execute_sub w) out_arithm no_type no_print
          (rs1_3bit ∷ rs2_3bit ∷ []) (rs1_3bit ∷ []) 0 any_width
      ∷ row opcodes subset_c "c_addw" (execute_addw w) out_arithm no_type no_print
          (rs1_3bit ∷ rs2_3bit ∷ []) (rs1_3bit ∷ []) 0 from_64
      ∷ row opcodes subset_c "c_subw" (execute_subw w) out_arithm no_type no_print
          (rs1_3bit ∷ rs2_3bit ∷ []) (rs1_3bit ∷ []) 0 from_64
      ∷ row opcodes subset_c "c_mv" (execute_or w) out_arithm no_type no_print
          (reg_zero ∷ rs2_cmp ∷ []) (rd ∷ []) 0 any_width
      ∷ row opcodes subset_c "c_add" (execute_add w) out_arithm no_type no_print (rd ∷ rs2_cmp ∷ [])
          (rd ∷ []) 0 any_width
      ∷ row opcodes subset_c "c_xor" (execute_xor w) out_arithm no_type no_print
          (rs1_3bit ∷ rs2_3bit ∷ []) (rs1_3bit ∷ []) 0 any_width
      ∷ row opcodes subset_c "c_or" (execute_or w) out_arithm no_type no_print
          (rs1_3bit ∷ rs2_3bit ∷ []) (rs1_3bit ∷ []) 0 any_width
      ∷ row opcodes subset_c "c_and" (execute_and w) out_arithm no_type no_print
          (rs1_3bit ∷ rs2_3bit ∷ []) (rs1_3bit ∷ []) 0 any_width
      ∷ []
