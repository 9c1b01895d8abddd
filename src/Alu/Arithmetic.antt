-- ===== src/Alu/Arithmetic.antt =====
-- Predicates, general addition, minima and maxima. Signed comparisons read a word of `w` bits in
-- two's complement, by moving it half the range up.
use mipt_mips.Prelude.{ℕ, ◌-◌, ◌^◌, Bool, not, ◌==◌, ltb, leb, if◌then◌else◌}
use mipt_mips.Prelude.Word.{narrow, add_word, sub_word}
use mipt_mips.Macro.{sign_extension}
use mipt_mips.Operation.{Datapath}

-- `narrow_cast<RegisterSInt>( a) < narrow_cast<RegisterSInt>( b)`
abbrev pub lt_signed : ℕ → ℕ → ℕ → Bool
lt_signed w a b = ltb (add_word w a (2 ^ (w - 1))) (add_word w b (2 ^ (w - 1)))

module _ (w : ℕ) where
  unfoldable pub lez : Datapath → Bool
  lez instr = not (lt_signed w 0 instr.v_src0)

  unfoldable pub gez : Datapath → Bool
  gez instr = not (lt_signed w instr.v_src0 0)

  unfoldable pub ltz : Datapath → Bool
  ltz instr = lt_signed w instr.v_src0 0

  unfoldable pub gtz : Datapath → Bool
  gtz instr = lt_signed w 0 instr.v_src0

  unfoldable pub eq : Datapath → Bool
  eq instr = instr.v_src0 == instr.v_src1

  unfoldable pub ne : Datapath → Bool
  ne instr = not (instr.v_src0 == instr.v_src1)

  unfoldable pub geu : Datapath → Bool
  geu instr = leb instr.v_src1 instr.v_src0

  unfoldable pub ltu : Datapath → Bool
  ltu instr = ltb instr.v_src0 instr.v_src1

  unfoldable pub ge : Datapath → Bool
  ge instr = not (lt_signed w instr.v_src0 instr.v_src1)

  unfoldable pub lt : Datapath → Bool
  lt instr = lt_signed w instr.v_src0 instr.v_src1

  unfoldable pub eqi : Datapath → Bool
  eqi instr = instr.v_src0 == instr.v_imm

  unfoldable pub nei : Datapath → Bool
  nei instr = not (instr.v_src0 == instr.v_imm)

  unfoldable pub lti : Datapath → Bool
  lti instr = lt_signed w instr.v_src0 instr.v_imm

  unfoldable pub gei : Datapath → Bool
  gei instr = not (lt_signed w instr.v_src0 instr.v_imm)

  unfoldable pub ltiu : Datapath → Bool
  ltiu instr = ltb instr.v_src0 instr.v_imm

  unfoldable pub geiu : Datapath → Bool
  geiu instr = leb instr.v_imm instr.v_src0

  -- `set<p>`
  unfoldable pub set_if : (Datapath → Bool) → Datapath → Datapath
  set_if p instr = record instr { v_dst0 = if p instr then 1 else 0 }

  unfoldable pub addition : ℕ → Datapath → Datapath
  addition t instr = record instr {
    v_dst0 = add_word t (narrow t instr.v_src0) (narrow t instr.v_src1);
  }

  unfoldable pub subtraction : ℕ → Datapath → Datapath
  subtraction t instr = record instr {
    v_dst0 = sub_word t (narrow t instr.v_src0) (narrow t instr.v_src1);
  }

  unfoldable pub riscv_addition : ℕ → Datapath → Datapath
  riscv_addition t instr = record instr {
    v_dst0 = sign_extension w (add_word t (narrow t instr.v_src0) (narrow t instr.v_src1)) t;
  }

  unfoldable pub riscv_subtraction : ℕ → Datapath → Datapath
  riscv_subtraction t instr = record instr {
    v_dst0 = sign_extension w (sub_word t (narrow t instr.v_src0) (narrow t instr.v_src1)) t;
  }

  unfoldable pub addition_imm : ℕ → Datapath → Datapath
  addition_imm t instr = record instr {
    v_dst0 = add_word t (narrow t instr.v_src0) (narrow t instr.v_imm);
  }

  unfoldable pub riscv_addition_imm : ℕ → Datapath → Datapath
  riscv_addition_imm t instr = record instr {
    v_dst0 = sign_extension w (add_word w instr.v_src0 instr.v_imm) t;
  }

  unfoldable pub max : Datapath → Datapath
  unfolding ge
  max instr = record instr { v_dst0 = if ge instr then instr.v_src0 else instr.v_src1 }

  unfoldable pub maxu : Datapath → Datapath
  maxu instr = record instr {
    v_dst0 = if ltb instr.v_src0 instr.v_src1 then instr.v_src1 else instr.v_src0;
  }

  unfoldable pub min : Datapath → Datapath
  unfolding lt
  min instr = record instr { v_dst0 = if lt instr then instr.v_src0 else instr.v_src1 }

  unfoldable pub minu : Datapath → Datapath
  minu instr = record instr {
    v_dst0 = if ltb instr.v_src1 instr.v_src0 then instr.v_src1 else instr.v_src0;
  }
