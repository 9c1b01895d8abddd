-- ===== src/Riscv/Executors.antt =====
-- risc_v/riscv_instr.cpp: the executors of the instructions, for registers of `w` bits.
use mipt_mips.Prelude.{ℕ, ◌/◌}
use mipt_mips.Prelude.Word.{countr_zero}
use mipt_mips.Operation.{Datapath}
use mipt_mips.Alu.Addresses.{addr, store_addr}
use mipt_mips.Alu.Branches.{
  branch, j, jump_and_link, riscv_jr, csrrs, csrrw, csrrwi, breakpoint, syscall,
  unknown_instruction,
}
use mipt_mips.Alu.Shifts.{
  sll, srl, sra, sllv, srlv, srav, slo, sloi, sro, sroi, rol, ror, rori, upper_immediate, auipc,
  clz, ctz, pcnt, grev, riscv_unshfl, riscv_shfl, gorc, gorci,
}
use mipt_mips.Alu.Logic.{
  andv, orv, xorv, andi, ori, xori, orn, xnor, sbinv, sbext, clmul, pack, packu, bit_field_place,
}
use mipt_mips.Alu.Arithmetic.{
  eq, ne, geu, ltu, ge, lt, lti, ltiu, set_if, riscv_addition, riscv_subtraction,
  riscv_addition_imm, max, maxu, min, minu,
}
use mipt_mips.Multiplication.{
  mult_l, mult_h_ss, mult_h_su, mult_h_uu, div, rem, div_signed, rem_signed,
}

-- `log_bitwidth`, of infra/macro.h.
abbrev pub log_bitwidth : ℕ → ℕ
log_bitwidth w = countr_zero 32 w

module _ (w : ℕ) where
  abbrev pub do_nothing : Datapath → Datapath
  do_nothing = unknown_instruction

  abbrev pub execute_lui : Datapath → Datapath
  execute_lui = upper_immediate w 12

  abbrev pub execute_auipc : Datapath → Datapath
  execute_auipc = auipc w

  abbrev pub execute_jal : Datapath → Datapath
  execute_jal = jump_and_link w j

  abbrev pub execute_jalr : Datapath → Datapath
  execute_jalr = jump_and_link w (riscv_jr w)

  abbrev pub execute_beq : Datapath → Datapath
  execute_beq = branch (eq w)

  abbrev pub execute_bne : Datapath → Datapath
  execute_bne = branch (ne w)

  abbrev pub execute_blt : Datapath → Datapath
  execute_blt = branch (lt w)

  abbrev pub execute_bge : Datapath → Datapath
  execute_bge = branch (ge w)

  abbrev pub execute_bltu : Datapath → Datapath
  execute_bltu = branch (ltu w)

  abbrev pub execute_bgeu : Datapath → Datapath
  execute_bgeu = branch (geu w)

  abbrev pub execute_load : Datapath → Datapath
  execute_load = addr w

  abbrev pub execute_store : Datapath → Datapath
  execute_store = store_addr w

  abbrev pub execute_addi : Datapath → Datapath
  execute_addi = riscv_addition_imm w w

  abbrev pub execute_addiw : Datapath → Datapath
  execute_addiw = riscv_addition_imm w 32

  abbrev pub execute_addid : Datapath → Datapath
  execute_addid = riscv_addition_imm w 64

  abbrev pub execute_slti : Datapath → Datapath
  execute_slti = set_if w (lti w)

  abbrev pub execute_sltiu : Datapath → Datapath
  execute_sltiu = set_if w (ltiu w)

  abbrev pub execute_xori : Datapath → Datapath
  execute_xori = xori w

  abbrev pub execute_ori : Datapath → Datapath
  execute_ori = ori w

  abbrev pub execute_andi : Datapath → Datapath
  execute_andi = andi w

  abbrev pub execute_slli : Datapath → Datapath
  execute_slli = sll w w

  abbrev pub execute_slliw : Datapath → Datapath
  execute_slliw = sll w 32

  abbrev pub execute_sllid : Datapath → Datapath
  execute_sllid = sll w 64

  abbrev pub execute_srli : Datapath → Datapath
  execute_srli = srl w w

  abbrev pub execute_srliw : Datapath → Datapath
  execute_srliw = srl w 32

  abbrev pub execute_srlid : Datapath → Datapath
  execute_srlid = srl w 64

  abbrev pub execute_srai : Datapath → Datapath
  execute_srai = sra w w

  abbrev pub execute_sraiw : Datapath → Datapath
  execute_sraiw = sra w 32

  abbrev pub execute_sraid : Datapath → Datapath
  execute_sraid = sra w 64

  abbrev pub execute_add : Datapath → Datapath
  execute_add = riscv_addition w w

  abbrev pub execute_addw : Datapath → Datapath
  execute_addw = riscv_addition w 32

  abbrev pub execute_sub : Datapath → Datapath
  execute_sub = riscv_subtraction w w

  abbrev pub execute_subw : Datapath → Datapath
  execute_subw = riscv_subtraction w 32

  abbrev pub execute_sll : Datapath → Datapath
  execute_sll = sllv w w (log_bitwidth w)

  abbrev pub execute_sllw : Datapath → Datapath
  execute_sllw = sllv w 32 5

  abbrev pub execute_slt : Datapath → Datapath
  execute_slt = set_if w (lt w)

  abbrev pub execute_sltu : Datapath → Datapath
  execute_sltu = set_if w (ltu w)

  abbrev pub execute_xor : Datapath → Datapath
  execute_xor = xorv w

  abbrev pub execute_srl : Datapath → Datapath
  execute_srl = srlv w w (log_bitwidth w)

  abbrev pub execute_srlw : Datapath → Datapath
  execute_srlw = srlv w 32 5

  abbrev pub execute_sra : Datapath → Datapath
  execute_sra = srav w w (log_bitwidth w)

  abbrev pub execute_sraw : Datapath → Datapath
  execute_sraw = srav w 32 5

  abbrev pub execute_or : Datapath → Datapath
  execute_or = orv w

  abbrev pub execute_and : Datapath → Datapath
  execute_and = andv w

  abbrev pub execute_ecall : Datapath → Datapath
  execute_ecall = syscall

  abbrev pub execute_ebreak : Datapath → Datapath
  execute_ebreak = breakpoint

  abbrev pub execute_uret : Datapath → Datapath
  execute_uret = jump_and_link w (riscv_jr w)

  abbrev pub execute_sret : Datapath → Datapath
  execute_sret = jump_and_link w (riscv_jr w)

  abbrev pub execute_mret : Datapath → Datapath
  execute_mret = jump_and_link w (riscv_jr w)

  abbrev pub execute_wfi : Datapath → Datapath
  execute_wfi = do_nothing

  abbrev pub execute_fence : Datapath → Datapath
  execute_fence = addr w

  abbrev pub execute_csrrw : Datapath → Datapath
  execute_csrrw = csrrw

  abbrev pub execute_csrrs : Datapath → Datapath
  execute_csrrs = csrrs w

  abbrev pub execute_csrrc : Datapath → Datapath
  execute_csrrc = do_nothing

  abbrev pub execute_csrrwi : Datapath → Datapath
  execute_csrrwi = csrrwi

  abbrev pub execute_csrrsi : Datapath → Datapath
  execute_csrrsi = do_nothing

  abbrev pub execute_csrrci : Datapath → Datapath
  execute_csrrci = do_nothing

  abbrev pub execute_mul : Datapath → Datapath
  execute_mul = mult_l w

  abbrev pub execute_mulh : Datapath → Datapath
  execute_mulh = mult_h_ss (w / 2)

  abbrev pub execute_mulhsu : Datapath → Datapath
  execute_mulhsu = mult_h_su (w / 2)

  abbrev pub execute_mulhu : Datapath → Datapath
  execute_mulhu = mult_h_uu (w / 2)

  abbrev pub execute_div : Datapath → Datapath
  execute_div = div_signed w

  abbrev pub execute_divu : Datapath → Datapath
  execute_divu = div w

  abbrev pub execute_rem : Datapath → Datapath
  execute_rem = rem_signed w

  abbrev pub execute_remu : Datapath → Datapath
  execute_remu = rem w

  abbrev pub execute_bfp : Datapath → Datapath
  execute_bfp = bit_field_place w

  abbrev pub execute_clmul : Datapath → Datapath
  execute_clmul = clmul w w

  abbrev pub execute_clz : Datapath → Datapath
  execute_clz = clz w w

  abbrev pub execute_ctz : Datapath → Datapath
  execute_ctz = ctz w w

  abbrev pub execute_gorc : Datapath → Datapath
  execute_gorc = gorc w (log_bitwidth w) (log_bitwidth w)

  abbrev pub execute_gorci : Datapath → Datapath
  execute_gorci = gorci w (log_bitwidth w)

  abbrev pub execute_grev : Datapath → Datapath
  execute_grev = grev w (log_bitwidth w)

  abbrev pub execute_max : Datapath → Datapath
  execute_max = max w

  abbrev pub execute_maxu : Datapath → Datapath
  execute_maxu = maxu w

  abbrev pub execute_min : Datapath → Datapath
  execute_min = min w

  abbrev pub execute_minu : Datapath → Datapath
  execute_minu = minu w

  abbrev pub execute_orn : Datapath → Datapath
  execute_orn = orn w

  abbrev pub execute_pack : Datapath → Datapath
  execute_pack = pack w w (w / 2)

  abbrev pub execute_packu : Datapath → Datapath
  execute_packu = packu w w (w / 2)

  abbrev pub execute_pcnt : Datapath → Datapath
  execute_pcnt = pcnt w w

  abbrev pub execute_rol : Datapath → Datapath
  execute_rol = rol w (log_bitwidth w)

  abbrev pub execute_ror : Datapath → Datapath
  execute_ror = ror w (log_bitwidth w)

  abbrev pub execute_rori : Datapath → Datapath
  execute_rori = rori w

  abbrev pub execute_sbext : Datapath → Datapath
  execute_sbext = sbext w (log_bitwidth w)

  abbrev pub execute_sbinv : Datapath → Datapath
  execute_sbinv = sbinv w w (log_bitwidth w)

  abbrev pub execute_shfl : Datapath → Datapath
  execute_shfl = riscv_shfl w (log_bitwidth w)

  abbrev pub execute_slo : Datapath → Datapath
  execute_slo = slo w w (log_bitwidth w)

  abbrev pub execute_sloi : Datapath → Datapath
  execute_sloi = sloi w w

  abbrev pub execute_sro : Datapath → Datapath
  execute_sro = sro w (log_bitwidth w)

  abbrev pub execute_sroi : Datapath → Datapath
  execute_sroi = sroi w

  abbrev pub execute_unshfl : Datapath → Datapath
  execute_unshfl = riscv_unshfl w (log_bitwidth w)

  abbrev pub execute_xnor : Datapath → Datapath
  execute_xnor = xnor w
