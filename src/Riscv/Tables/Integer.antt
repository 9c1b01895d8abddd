-- ===== src/Riscv/Tables/Integer.antt =====
-- risc_v/riscv_instr.cpp: the entries of the subsets I and M.
use mipt_mips.Prelude.{ℕ, List, [], ◌∷◌}
use mipt_mips.Operation.{
  out_arithm, out_branch, out_j_jump, out_load, out_loadu, out_r_jump, out_store, out_trap,
}
use mipt_mips.Mips.Tables.{addr, arith, logic, no_print}
use mipt_mips.Riscv.{csr, mepc, rd, reg_zero, rs1, rs2, sepc}
use mipt_mips.Riscv.Formats.{
  b_type, csr_type, five, i_type, j_type, no_type, s_type, seven, six, u_type,
}
use mipt_mips.Riscv.Executors.{
  execute_add, execute_addi, execute_addid, execute_addiw, execute_addw, execute_and, execute_andi,
  execute_auipc, execute_beq, execute_bge, execute_bgeu, execute_blt, execute_bltu, execute_bne,
  execute_csrrs, execute_csrrw, execute_csrrwi, execute_div, execute_divu, execute_ebreak,
  execute_ecall, execute_fence, execute_jal, execute_jalr, execute_load, execute_lui, execute_mret,
  execute_mul, execute_mulh, execute_mulhsu, execute_mulhu, execute_or, execute_ori, execute_rem,
  execute_remu, execute_sll, execute_slli, execute_sllid, execute_slliw, execute_sllw, execute_slt,
  execute_slti, execute_sltiu, execute_sltu, execute_sra, execute_srai, execute_sraid,
  execute_sraiw, execute_sraw, execute_sret, execute_srl, execute_srli, execute_srlid,
  execute_srliw, execute_srlw, execute_store, execute_sub, execute_subw, execute_xor, execute_xori,
}
use mipt_mips.Riscv.Tables.{
  Opcodes, RiscvTableEntry, row, any_width, from_64, only_128, subset_i, subset_m,
}

module _ (w : ℕ) (opcodes : Opcodes) where
  unfoldable pub cmd_desc_i : List RiscvTableEntry
  cmd_desc_i =
      row opcodes subset_i "lui" (execute_lui w) out_arithm u_type logic (reg_zero ∷ reg_zero ∷ [])
        (rd ∷ []) 0 any_width
      ∷ row opcodes subset_i "auipc" (execute_auipc w) out_arithm u_type logic
          (reg_zero ∷ reg_zero ∷ []) (rd ∷ []) 0 any_width
      ∷ row opcodes subset_i "jal" (execute_jal w) out_j_jump j_type arith
          (reg_zero ∷ reg_zero ∷ []) (rd ∷ []) 0 any_width
      ∷ row opcodes subset_i "jalr" (execute_jalr w) out_r_jump i_type logic (rs1 ∷ reg_zero ∷ [])
          (rd ∷ []) 0 any_width
      ∷ row opcodes subset_i "beq" (execute_beq w) out_branch b_type arith (rs1 ∷ rs2 ∷ [])
          (reg_zero ∷ []) 0 any_width
      ∷ row opcodes subset_i "bne" (execute_bne w) out_branch b_type arith (rs1 ∷ rs2 ∷ [])
          (reg_zero ∷ []) 0 any_width
      ∷ row opcodes subset_i "blt" (execute_blt w) out_branch b_type arith (rs1 ∷ rs2 ∷ [])
          (reg_zero ∷ []) 0 any_width
      ∷ row opcodes subset_i "bge" (execute_bge w) out_branch b_type arith (rs1 ∷ rs2 ∷ [])
          (reg_zero ∷ []) 0 any_width
      ∷ row opcodes subset_i "bltu" (execute_bltu w) out_branch b_type arith (rs1 ∷ rs2 ∷ [])
          (reg_zero ∷ []) 0 any_width
      ∷ row opcodes subset_i "bgeu" (execute_bgeu w) out_branch b_type arith (rs1 ∷ rs2 ∷ [])
          (reg_zero ∷ []) 0 any_width
      ∷ row opcodes subset_i "lb" (execute_load w) out_load i_type addr (rs1 ∷ reg_zero ∷ [])
          (rd ∷ []) 1 any_width
      ∷ row opcodes subset_i "lh" (execute_load w) out_load i_type addr (rs1 ∷ reg_zero ∷ [])
          (rd ∷ []) 2 any_width
      ∷ row opcodes subset_i "lw" (execute_load w) out_load i_type addr (rs1 ∷ reg_zero ∷ [])
          (rd ∷ []) 4 any_width
      ∷ row opcodes subset_i "ld" (execute_load w) out_load i_type addr (rs1 ∷ reg_zero ∷ [])
          (rd ∷ []) 8 from_64
      ∷ row opcodes subset_i "lbu" (execute_load w) out_loadu i_type addr (rs1 ∷ reg_zero ∷ [])
          (rd ∷ []) 1 any_width
      ∷ row opcodes subset_i "lhu" (execute_load w) out_loadu i_type addr (rs1 ∷ reg_zero ∷ [])
          (rd ∷ []) 2 any_width
      ∷ row opcodes subset_i "lwu" (execute_load w) out_loadu i_type addr (rs1 ∷ reg_zero ∷ [])
          (rd ∷ []) 4 any_width
      ∷ row opcodes subset_i "sb" (execute_store w) out_store s_type addr (rs1 ∷ rs2 ∷ [])
          (reg_zero ∷ []) 1 any_width
      ∷ row opcodes subset_i "sh" (execute_store w) out_store s_type addr (rs1 ∷ rs2 ∷ [])
          (reg_zero ∷ []) 2 any_width
      ∷ row opcodes subset_i "sw" (execute_store w) out_store s_type addr (rs1 ∷ rs2 ∷ [])
          (reg_zero ∷ []) 4 any_width
      ∷ row opcodes subset_i "sd" (execute_store w) out_store s_type addr (rs1 ∷ rs2 ∷ [])
          (reg_zero ∷ []) 8 from_64
      ∷ row opcodes subset_i "addi" (execute_addi w) out_arithm i_type arith (rs1 ∷ reg_zero ∷ [])
          (rd ∷ []) 0 any_width
      ∷ row opcodes subset_i "slli" (execute_slli w) out_arithm seven arith (rs1 ∷ reg_zero ∷ [])
          (rd ∷ []) 0 any_width
      ∷ row opcodes subset_i "srli" (execute_srli w) out_arithm seven arith (rs1 ∷ reg_zero ∷ [])
          (rd ∷ []) 0 any_width
      ∷ row opcodes subset_i "srai" (execute_srai w) out_arithm seven arith (rs1 ∷ reg_zero ∷ [])
          (rd ∷ []) 0 any_width
      ∷ row opcodes subset_i "addiw" (execute_addiw w) out_arithm i_type arith (rs1 ∷ reg_zero ∷ [])
          (rd ∷ []) 0 from_64
      ∷ row opcodes subset_i "slliw" (execute_slliw w) out_arithm five arith (rs1 ∷ reg_zero ∷ [])
          (rd ∷ []) 0 from_64
      ∷ row opcodes subset_i "srliw" (execute_srliw w) out_arithm five arith (rs1 ∷ reg_zero ∷ [])
          (rd ∷ []) 0 from_64
      ∷ row opcodes subset_i "sraiw" (execute_sraiw w) out_arithm five arith (rs1 ∷ reg_zero ∷ [])
          (rd ∷ []) 0 from_64
      ∷ row opcodes subset_i "addid" (execute_addid w) out_arithm i_type arith (rs1 ∷ reg_zero ∷ [])
          (rd ∷ []) 0 only_128
      ∷ row opcodes subset_i "sllid" (execute_sllid w) out_arithm six arith (rs1 ∷ reg_zero ∷ [])
          (rd ∷ []) 0 only_128
      ∷ row opcodes subset_i "srlid" (execute_srlid w) out_arithm six arith (rs1 ∷ reg_zero ∷ [])
          (rd ∷ []) 0 only_128
      ∷ row opcodes subset_i "sraid" (execute_sraid w) out_arithm six arith (rs1 ∷ reg_zero ∷ [])
          (rd ∷ []) 0 only_128
      ∷ row opcodes subset_i "slti" (execute_slti w) out_arithm i_type arith (rs1 ∷ reg_zero ∷ [])
          (rd ∷ []) 0 any_width
      ∷ row opcodes subset_i "sltiu" (execute_sltiu w) out_arithm i_type arith (rs1 ∷ reg_zero ∷ [])
          (rd ∷ []) 0 any_width
      ∷ row opcodes subset_i "xori" (execute_xori w) out_arithm i_type logic (rs1 ∷ reg_zero ∷ [])
          (rd ∷ []) 0 any_width
      ∷ row opcodes subset_i "ori" (execute_ori w) out_arithm i_type logic (rs1 ∷ reg_zero ∷ [])
          (rd ∷ []) 0 any_width
      ∷ row opcodes subset_i "andi" (execute_andi w) out_arithm i_type logic (rs1 ∷ reg_zero ∷ [])
          (rd ∷ []) 0 any_width
      ∷ row opcodes subset_i "add" (execute_add w) out_arithm no_type no_print (rs1 ∷ rs2 ∷ [])
          (rd ∷ []) 0 any_width
      ∷ row opcodes subset_i "sub" (execute_sub w) out_arithm no_type no_print (rs1 ∷ rs2 ∷ [])
          (rd ∷ []) 0 any_width
      ∷ row opcodes subset_i "sll" (execute_sll w) out_arithm no_type no_print (rs1 ∷ rs2 ∷ [])
          (rd ∷ []) 0 any_width
      ∷ row opcodes subset_i "sra" (execute_sra w) out_arithm no_type no_print (rs1 ∷ rs2 ∷ [])
          (rd ∷ []) 0 any_width
      ∷ row opcodes subset_i "srl" (execute_srl w) out_arithm no_type no_print (rs1 ∷ rs2 ∷ [])
          (rd ∷ []) 0 any_width
      ∷ row opcodes subset_i "addw" (execute_addw w) out_arithm no_type no_print (rs1 ∷ rs2 ∷ [])
          (rd ∷ []) 0 from_64
      ∷ row opcodes subset_i "subw" (execute_subw w) out_arithm no_type no_print (rs1 ∷ rs2 ∷ [])
          (rd ∷ []) 0 from_64
      ∷ row opcodes subset_i "sllw" (execute_sllw w) out_arithm no_type no_print (rs1 ∷ rs2 ∷ [])
          (rd ∷ []) 0 from_64
      ∷ row opcodes subset_i "sraw" (execute_sraw w) out_arithm no_type no_print (rs1 ∷ rs2 ∷ [])
          (rd ∷ []) 0 from_64
      ∷ row opcodes subset_i "srlw" (execute_srlw w) out_arithm no_type no_print (rs1 ∷ rs2 ∷ [])
          (rd ∷ []) 0 from_64
      ∷ row opcodes subset_i "slt" (execute_slt w) out_arithm no_type no_print (rs1 ∷ rs2 ∷ [])
          (rd ∷ []) 0 any_width
      ∷ row opcodes subset_i "sltu" (execute_sltu w) out_arithm no_type no_print (rs1 ∷ rs2 ∷ [])
          (rd ∷ []) 0 any_width
      ∷ row opcodes subset_i "and" (execute_and w) out_arithm no_type no_print (rs1 ∷ rs2 ∷ [])
          (rd ∷ []) 0 any_width
      ∷ row opcodes subset_i "xor" (execute_xor w) out_arithm no_type no_print (rs1 ∷ rs2 ∷ [])
          (rd ∷ []) 0 any_width
      ∷ row opcodes subset_i "or" (execute_or w) out_arithm no_type no_print (rs1 ∷ rs2 ∷ [])
          (rd ∷ []) 0 any_width
      ∷ row opcodes subset_i "ecall" (execute_ecall w) out_trap no_type no_print
          (reg_zero ∷ reg_zero ∷ []) (reg_zero ∷ []) 0 any_width
      ∷ row opcodes subset_i "ebreak" (execute_ebreak w) out_trap no_type no_print
          (reg_zero ∷ reg_zero ∷ []) (reg_zero ∷ []) 0 any_width
      ∷ row opcodes subset_i "sret" (execute_sret w) out_r_jump no_type no_print
          (sepc ∷ reg_zero ∷ []) (reg_zero ∷ []) 0 any_width
      ∷ row opcodes subset_i "mret" (execute_mret w) out_r_jump no_type no_print
          (mepc ∷ reg_zero ∷ []) (reg_zero ∷ []) 0 any_width
      ∷ row opcodes subset_i "csrrw" (execute_csrrw w) out_arithm no_type no_print (rs1 ∷ csr ∷ [])
          (csr ∷ rd ∷ []) 0 any_width
      ∷ row opcodes subset_i "csrrs" (execute_csrrs w) out_arithm no_type no_print (rs1 ∷ csr ∷ [])
          (csr ∷ rd ∷ []) 0 any_width
      ∷ row opcodes subset_i "csrrwi" (execute_csrrwi w) out_arithm csr_type logic
          (reg_zero ∷ csr ∷ []) (csr ∷ rd ∷ []) 0 any_width
      ∷ row opcodes subset_i "fence" (execute_fence w) out_load i_type addr (rs1 ∷ reg_zero ∷ [])
          (reg_zero ∷ []) 0 any_width
      ∷ row opcodes subset_i "fence_i" (execute_fence w) out_load i_type addr (rs1 ∷ reg_zero ∷ [])
          (reg_zero ∷ []) 0 any_width
      ∷ []

  unfoldable pub cmd_desc_m : List RiscvTableEntry
  cmd_desc_m =
      row opcodes subset_m "mul" (execute_mul w) out_arithm no_type no_print (rs1 ∷ rs2 ∷ [])
        (rd ∷ []) 0 any_width
      ∷ row opcodes subset_m "mulh" (execute_mulh w) out_arithm no_type no_print (rs1 ∷ rs2 ∷ [])
          (rd ∷ []) 0 any_width
      ∷ row opcodes subset_m "mulhsu" (execute_mulhsu w) out_arithm no_type no_print
          (rs1 ∷ rs2 ∷ []) (rd ∷ []) 0 any_width
      ∷ row opcodes subset_m "mulhu" (execute_mulhu w) out_arithm no_type no_print (rs1 ∷ rs2 ∷ [])
          (rd ∷ []) 0 any_width
      ∷ row opcodes subset_m "div" (execute_div w) out_arithm no_type no_print (rs1 ∷ rs2 ∷ [])
          (rd ∷ []) 0 any_width
      ∷ row opcodes subset_m "divu" (execute_divu w) out_arithm no_type no_print (rs1 ∷ rs2 ∷ [])
          (rd ∷ []) 0 any_width
      ∷ row opcodes subset_m "rem" (execute_rem w) out_arithm no_type no_print (rs1 ∷ rs2 ∷ [])
          (rd ∷ []) 0 any_width
      ∷ row opcodes subset_m "remu" (execute_remu w) out_arithm no_type no_print (rs1 ∷ rs2 ∷ [])
          (rd ∷ []) 0 any_width
      ∷ []
