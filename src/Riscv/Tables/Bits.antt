-- ===== src/Riscv/Tables/Bits.antt =====
-- risc_v/riscv_instr.cpp: the entries of the subset B.
use mipt_mips.Prelude.{ℕ, List, [], ◌∷◌}
use mipt_mips.Operation.{out_arithm}
use mipt_mips.Mips.Tables.{arith, no_print}
use mipt_mips.Riscv.{rd, reg_zero, rs1, rs2}
use mipt_mips.Riscv.Formats.{no_type, seven}
use mipt_mips.Riscv.Executors.{
  execute_bfp, execute_clmul, execute_clz, execute_ctz, execute_gorc, execute_gorci, execute_grev,
  execute_max, execute_maxu, execute_min, execute_minu, execute_orn, execute_pack, execute_packu,
  execute_pcnt, execute_rol, execute_ror, execute_rori, execute_sbext, execute_sbinv, execute_shfl,
  execute_slo, execute_sloi, execute_sro, execute_sroi, execute_unshfl, execute_xnor,
}
use mipt_mips.Riscv.Tables.{Opcodes, RiscvTableEntry, row, any_width, up_to_64, subset_b}

module _ (w : ℕ) (opcodes : Opcodes) where
  unfoldable pub cmd_desc_b : List RiscvTableEntry
  cmd_desc_b =
      row opcodes subset_b "slo" (execute_slo w) out_arithm no_type no_print (rs1 ∷ rs2 ∷ [])
        (rd ∷ []) 0 up_to_64
      ∷ row opcodes subset_b "sro" (execute_sro w) out_arithm no_type no_print (rs1 ∷ rs2 ∷ [])
          (rd ∷ []) 0 up_to_64
      ∷ row opcodes subset_b "orn" (execute_orn w) out_arithm no_type no_print (rs1 ∷ rs2 ∷ [])
          (rd ∷ []) 0 up_to_64
      ∷ row opcodes subset_b "sbinv" (execute_sbinv w) out_arithm no_type no_print (rs1 ∷ rs2 ∷ [])
          (rd ∷ []) 0 up_to_64
      ∷ row opcodes subset_b "sbext" (execute_sbext w) out_arithm no_type no_print (rs1 ∷ rs2 ∷ [])
          (rd ∷ []) 0 up_to_64
      ∷ row opcodes subset_b "pack" (execute_pack w) out_arithm no_type no_print (rs1 ∷ rs2 ∷ [])
          (rd ∷ []) 0 up_to_64
      ∷ row opcodes subset_b "packu" (execute_packu w) out_arithm no_type no_print (rs1 ∷ rs2 ∷ [])
          (rd ∷ []) 0 up_to_64
      ∷ row opcodes subset_b "xnor" (execute_xnor w) out_arithm no_type no_print (rs1 ∷ rs2 ∷ [])
          (rd ∷ []) 0 up_to_64
      ∷ row opcodes subset_b "bfp" (execute_bfp w) out_arithm no_type no_print (rs1 ∷ rs2 ∷ [])
          (rd ∷ []) 0 up_to_64
      ∷ row opcodes subset_b "grev" (execute_grev w) out_arithm no_type no_print (rs1 ∷ rs2 ∷ [])
          (rd ∷ []) 0 up_to_64
      ∷ row opcodes subset_b "pcnt" (execute_pcnt w) out_arithm no_type no_print (rs1 ∷ rs2 ∷ [])
          (rd ∷ []) 0 up_to_64
      ∷ row opcodes subset_b "clz" (execute_clz w) out_arithm no_type no_print (rs1 ∷ reg_zero ∷ [])
          (rd ∷ []) 0 up_to_64
      ∷ row opcodes subset_b "ctz" (execute_ctz w) out_arithm no_type no_print (rs1 ∷ reg_zero ∷ [])
          (rd ∷ []) 0 up_to_64
      ∷ row opcodes subset_b "rol" (execute_rol w) out_arithm no_type no_print (rs1 ∷ rs2 ∷ [])
          (rd ∷ []) 0 up_to_64
      ∷ row opcodes subset_b "ror" (execute_ror w) out_arithm no_type no_print (rs1 ∷ rs2 ∷ [])
          (rd ∷ []) 0 up_to_64
      ∷ row opcodes subset_b "clmul" (execute_clmul w) out_arithm no_type no_print (rs1 ∷ rs2 ∷ [])
          (rd ∷ []) 0 up_to_64
      ∷ row opcodes subset_b "max" (execute_max w) out_arithm no_type no_print (rs1 ∷ rs2 ∷ [])
          (rd ∷ []) 0 up_to_64
      ∷ row opcodes subset_b "maxu" (execute_maxu w) out_arithm no_type no_print (rs1 ∷ rs2 ∷ [])
          (rd ∷ []) 0 up_to_64
      ∷ row opcodes subset_b "min" (execute_min w) out_arithm no_type no_print (rs1 ∷ rs2 ∷ [])
          (rd ∷ []) 0 up_to_64
      ∷ row opcodes subset_b "minu" (execute_minu w) out_arithm no_type no_print (rs1 ∷ rs2 ∷ [])
          (rd ∷ []) 0 up_to_64
      ∷ row opcodes subset_b "gorc" (execute_gorc w) out_arithm no_type no_print (rs1 ∷ rs2 ∷ [])
          (rd ∷ []) 0 up_to_64
      ∷ row opcodes subset_b "gorci" (execute_gorci w) out_arithm seven arith (rs1 ∷ reg_zero ∷ [])
          (rd ∷ []) 0 up_to_64
      ∷ row opcodes subset_b "unshfl" (execute_unshfl w) out_arithm no_type no_print
          (rs1 ∷ rs2 ∷ []) (rd ∷ []) 0 any_width
      ∷ row opcodes subset_b "rori" (execute_rori w) out_arithm seven arith (rs1 ∷ reg_zero ∷ [])
          (rd ∷ []) 0 up_to_64
      ∷ row opcodes subset_b "shfl" (execute_shfl w) out_arithm no_type no_print (rs1 ∷ rs2 ∷ [])
          (rd ∷ []) 0 up_to_64
      ∷ row opcodes subset_b "sloi" (execute_sloi w) out_arithm seven arith (rs1 ∷ reg_zero ∷ [])
          (rd ∷ []) 0 up_to_64
      ∷ row opcodes subset_b "sroi" (execute_sroi w) out_arithm seven arith (rs1 ∷ reg_zero ∷ [])
          (rd ∷ []) 0 up_to_64
      ∷ []
