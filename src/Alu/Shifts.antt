-- ===== src/Alu/Shifts.antt =====
-- Shifts, rotations, counts and permutations of the digits of a register.
use mipt_mips.Prelude.{ℕ, zero, suc, ◌+◌, ◌-◌, ◌^◌, ◌==◌, if◌then◌else◌, bit_and, bit_or}
use mipt_mips.Prelude.Word.{narrow, add_word, not_word, shl, shr}
use mipt_mips.Macro.{bitmask, all_ones, ones_ls, ones_rs, sign_extension}
use mipt_mips.Operation.{Datapath}
use mipt_mips.Alu.Primitives.{
  popcount, count_leading_zeroes, count_leading_ones, count_trailing_zeroes, circ_ls, circ_rs,
  arithmetic_rs, shuffle_mask, gen_reverse, gen_or_combine,
}

unfoldable pub shamt_imm : Datapath → ℕ
shamt_imm instr = narrow 64 instr.v_imm

unfoldable pub shamt_imm_32 : Datapath → ℕ
shamt_imm_32 instr = add_word 64 (narrow 64 instr.v_imm) 32

-- `log_t` is `log_bitwidth<T>`.
unfoldable pub shamt_v_src2 : ℕ → Datapath → ℕ
shamt_v_src2 log_t instr = narrow 64 (bit_and instr.v_src1 (bitmask 64 log_t))

unfoldable pub bit_shuffle : ℕ → ℕ → ℕ → ℕ
bit_shuffle w value level =
    let mask_l = shuffle_mask w 2 level in
    let mask_r = shuffle_mask w 1 level in
    let shamt = 2 ^ level in
    bit_or (bit_and value (not_word w (bit_or mask_l mask_r)))
      (bit_or (bit_and (shl w value shamt) mask_l) (bit_and (shr value shamt) mask_r))

module _ (w : ℕ) where
  unfoldable pub sll : ℕ → Datapath → Datapath
  unfolding shamt_imm
  sll t instr = record instr {
    v_dst0 = sign_extension w (shl w (bit_and instr.v_src0 (all_ones t)) (shamt_imm instr)) t;
  }

  unfoldable pub srl : ℕ → Datapath → Datapath
  unfolding shamt_imm
  srl t instr = record instr {
    v_dst0 = sign_extension w (shr (bit_and instr.v_src0 (all_ones t)) (shamt_imm instr)) t;
  }

  unfoldable pub sra : ℕ → Datapath → Datapath
  unfolding shamt_imm
  sra t instr = record instr {
    v_dst0 = arithmetic_rs w (sign_extension w instr.v_src0 t) (shamt_imm instr);
  }

  unfoldable pub sllv : ℕ → ℕ → Datapath → Datapath
  sllv t log_t instr = record instr {
    v_dst0 =
        sign_extension w (shl w (bit_and instr.v_src0 (all_ones t)) (shamt_v_src2 log_t instr)) t;
  }

  unfoldable pub srlv : ℕ → ℕ → Datapath → Datapath
  srlv t log_t instr = record instr {
    v_dst0 =
        sign_extension w (shr (bit_and instr.v_src0 (all_ones t)) (shamt_v_src2 log_t instr)) t;
  }

  unfoldable pub srav : ℕ → ℕ → Datapath → Datapath
  srav t log_t instr = record instr {
    v_dst0 = arithmetic_rs w (sign_extension w instr.v_src0 t) (shamt_v_src2 log_t instr);
  }

  unfoldable pub slo : ℕ → ℕ → Datapath → Datapath
  slo t log_t instr = record instr {
    v_dst0 = ones_ls w (sign_extension w instr.v_src0 t) (shamt_v_src2 log_t instr);
  }

  unfoldable pub sloi : ℕ → Datapath → Datapath
  sloi t instr = record instr {
    v_dst0 = ones_ls w (sign_extension w instr.v_src0 t) (shamt_imm instr);
  }

  unfoldable pub sro : ℕ → Datapath → Datapath
  sro log_t instr = record instr { v_dst0 = ones_rs w instr.v_src0 (shamt_v_src2 log_t instr) }

  unfoldable pub sroi : Datapath → Datapath
  sroi instr = record instr { v_dst0 = ones_rs w instr.v_src0 (shamt_imm instr) }

  -- `log_w` is `log_bitwidth<RegisterUInt>` from here on.
  unfoldable pub rol : ℕ → Datapath → Datapath
  rol log_w instr = record instr {
    v_dst0 = circ_ls w (sign_extension w instr.v_src0 w) (shamt_v_src2 log_w instr);
  }

  unfoldable pub ror : ℕ → Datapath → Datapath
  ror log_w instr = record instr {
    v_dst0 = circ_rs w (sign_extension w instr.v_src0 w) (shamt_v_src2 log_w instr);
  }

  unfoldable pub rori : Datapath → Datapath
  rori instr = record instr {
    v_dst0 = circ_rs w (sign_extension w instr.v_src0 w) (shamt_imm instr);
  }

  unfoldable pub dsll32 : Datapath → Datapath
  dsll32 instr = record instr { v_dst0 = shl w instr.v_src0 (shamt_imm_32 instr) }

  unfoldable pub dsrl32 : Datapath → Datapath
  dsrl32 instr = record instr { v_dst0 = shr instr.v_src0 (shamt_imm_32 instr) }

  unfoldable pub dsra32 : Datapath → Datapath
  dsra32 instr = record instr { v_dst0 = arithmetic_rs w instr.v_src0 (shamt_imm_32 instr) }

  unfoldable pub upper_immediate : ℕ → Datapath → Datapath
  upper_immediate n instr = record instr { v_dst0 = shl w instr.v_imm n }

  unfoldable pub auipc : Datapath → Datapath
  unfolding upper_immediate
  auipc instr = let i = upper_immediate 12 instr in record i { v_dst0 = add_word w i.v_dst0 i.pc }

  unfoldable pub clo : ℕ → Datapath → Datapath
  clo t instr = record instr { v_dst0 = count_leading_ones t (narrow t instr.v_src0) }

  unfoldable pub clz : ℕ → Datapath → Datapath
  clz t instr = record instr { v_dst0 = count_leading_zeroes t (narrow t instr.v_src0) }

  unfoldable pub ctz : ℕ → Datapath → Datapath
  ctz t instr = record instr { v_dst0 = count_trailing_zeroes t (narrow t instr.v_src0) }

  unfoldable pub pcnt : ℕ → Datapath → Datapath
  pcnt t instr = record instr { v_dst0 = narrow t (popcount w instr.v_src0) }

  unfoldable pub grev : ℕ → Datapath → Datapath
  grev log_w instr = record instr {
    v_dst0 = gen_reverse w log_w instr.v_src0 (shamt_v_src2 log_w instr);
  }

  -- The loop of `riscv_unshfl`, upwards.
  unfoldable pub unshfl_from : ℕ → ℕ → ℕ → ℕ → ℕ
  unshfl_from control zero i value = value
  unshfl_from control (suc left) i value =
      unshfl_from control left (i + 1)
        (if bit_and (shr control i) 1 == 0 then value else bit_shuffle w value i)

  unfoldable pub riscv_unshfl : ℕ → Datapath → Datapath
  riscv_unshfl log_w instr = record instr {
    v_dst0 = unshfl_from instr.v_src1 (log_w - 1) 0 instr.v_src0;
  }

  -- The loop of `riscv_shfl`, downwards.
  unfoldable pub shfl_down : ℕ → ℕ → ℕ → ℕ
  shfl_down control zero value = value
  shfl_down control (suc i) value =
      shfl_down control i (if bit_and (shr control i) 1 == 0 then value else bit_shuffle w value i)

  unfoldable pub riscv_shfl : ℕ → Datapath → Datapath
  riscv_shfl log_w instr = record instr { v_dst0 = shfl_down instr.v_src1 (log_w - 1) instr.v_src0 }

  unfoldable pub gorc : ℕ → ℕ → Datapath → Datapath
  gorc log_w log_t instr = record instr {
    v_dst0 = gen_or_combine w log_w instr.v_src0 (shamt_v_src2 log_t instr);
  }

  unfoldable pub gorci : ℕ → Datapath → Datapath
  gorci log_w instr = record instr {
    v_dst0 = gen_or_combine w log_w instr.v_src0 (shamt_imm instr);
  }
