-- ===== src/Alu/Logic.antt =====
-- Bitwise logic, conditional moves and single bits.
use mipt_mips.Prelude.{ℕ, zero, suc, ◌+◌, ◌-◌, ◌==◌, ltb, if◌then◌else◌, bit_and, bit_or, bit_xor}
use mipt_mips.Prelude.Word.{narrow, not_word, shl, shr}
use mipt_mips.Macro.{bitmask}
use mipt_mips.Operation.{Datapath}
use mipt_mips.Alu.Shifts.{shamt_v_src2}

module _ (w : ℕ) where
  unfoldable pub move : Datapath → Datapath
  move instr = record instr { v_dst0 = instr.v_src0 }

  unfoldable pub andv : Datapath → Datapath
  andv instr = record instr { v_dst0 = bit_and instr.v_src0 instr.v_src1 }

  unfoldable pub orv : Datapath → Datapath
  orv instr = record instr { v_dst0 = bit_or instr.v_src0 instr.v_src1 }

  unfoldable pub xorv : Datapath → Datapath
  xorv instr = record instr { v_dst0 = bit_xor instr.v_src0 instr.v_src1 }

  unfoldable pub nor : Datapath → Datapath
  nor instr = record instr { v_dst0 = not_word w (bit_or instr.v_src0 instr.v_src1) }

  unfoldable pub andi : Datapath → Datapath
  andi instr = record instr { v_dst0 = bit_and instr.v_src0 instr.v_imm }

  unfoldable pub ori : Datapath → Datapath
  ori instr = record instr { v_dst0 = bit_or instr.v_src0 instr.v_imm }

  unfoldable pub xori : Datapath → Datapath
  xori instr = record instr { v_dst0 = bit_xor instr.v_src0 instr.v_imm }

  unfoldable pub orn : Datapath → Datapath
  orn instr = record instr { v_dst0 = bit_or instr.v_src0 (not_word w instr.v_src1) }

  unfoldable pub xnor : Datapath → Datapath
  xnor instr = record instr { v_dst0 = bit_xor instr.v_src0 (not_word w instr.v_src1) }

  unfoldable pub movn : Datapath → Datapath
  unfolding move
  movn instr = let i = move instr in if i.v_src1 == 0 then record i { mask = 0 } else i

  unfoldable pub movz : Datapath → Datapath
  unfolding move
  movz instr = let i = move instr in if i.v_src1 == 0 then i else record i { mask = 0 }

  unfoldable pub sbinv : ℕ → ℕ → Datapath → Datapath
  sbinv t log_t instr = record instr {
    v_dst0 = bit_xor instr.v_src0 (shl t 1 (shamt_v_src2 log_t instr));
  }

  unfoldable pub sbext : ℕ → Datapath → Datapath
  sbext log_t instr = record instr {
    v_dst0 = bit_and 1 (shr instr.v_src0 (shamt_v_src2 log_t instr));
  }

  -- The loop of `clmul`.
  unfoldable pub clmul_from : ℕ → ℕ → ℕ → ℕ → ℕ → ℕ
  clmul_from a b zero index result = result
  clmul_from a b (suc left) index result =
      clmul_from a b left (index + 1)
        (if bit_and (shr b index) 1 == 0 then result else bit_xor result (shl w a index))

  unfoldable pub clmul : ℕ → Datapath → Datapath
  unfolding clmul_from
  clmul t instr = record instr { v_dst0 = clmul_from instr.v_src0 instr.v_src1 t 0 0 }

  -- `half` is `half_bitwidth<T>`.
  unfoldable pub pack : ℕ → ℕ → Datapath → Datapath
  pack t half instr = record instr {
    v_dst0 = bit_or (bit_and instr.v_src0 (bitmask t half)) (shl w instr.v_src1 half);
  }

  unfoldable pub packu : ℕ → ℕ → Datapath → Datapath
  packu t half instr = record instr {
    v_dst0 = bit_or (shr instr.v_src0 half) (bit_and instr.v_src1 (shl t (bitmask t half) half));
  }

  unfoldable pub bit_field_place : Datapath → Datapath
  bit_field_place instr =
      let len0 = bit_and (shr (narrow 64 instr.v_src1) 24) 15 in
      let len = if ltb 0 len0 then len0 else 16 in
      let off = bit_and (shr (narrow 64 instr.v_src1) 16) (w - 1) in
      let mask = shl w (bitmask w len) off in
      let field = shl w instr.v_src1 off in
      record instr { v_dst0 = bit_or (bit_and field mask) (bit_and instr.v_src0 (not_word w mask)) }
