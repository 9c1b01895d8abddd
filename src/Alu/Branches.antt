-- ===== src/Alu/Branches.antt =====
-- Branches, jumps, traps and the accesses to control registers.
use mipt_mips.Prelude.{ℕ, ◌%◌, ◌^◌, Bool, true, ◌||◌, ◌==◌, if◌then◌else◌, bit_and}
use mipt_mips.Prelude.Word.{narrow, add_word, not_word, shl, shr}
use mipt_mips.Macro.{bitmask, all_ones}
use mipt_mips.Operation.{Datapath}
use mipt_mips.Trap.{Trap}

-- `goto nullptr;` and `while (1);`
unfoldable pub check_halt_trap : Datapath → Datapath
check_halt_trap instr =
    if instr.new_pc == 0 || instr.new_pc == instr.pc
    then record instr { trap = Trap.halt }
    else instr

unfoldable pub align_up : ℕ → ℕ → ℕ → ℕ
align_up w n value = shl w (shr (add_word w value (bitmask w n)) n) n

unfoldable pub branch : (Datapath → Bool) → Datapath → Datapath
unfolding check_halt_trap
branch p instr =
    let i = record instr { is_taken_branch = p instr } in
    if p instr then check_halt_trap (record i { new_pc = i.target }) else i

unfoldable pub jump : Datapath → ℕ → Datapath
unfolding check_halt_trap
jump instr target = check_halt_trap (record instr { is_taken_branch = true; new_pc = target })

unfoldable pub j : Datapath → Datapath
unfolding jump
j instr = jump instr instr.target

module _ (w : ℕ) where
  unfoldable pub riscv_jr : Datapath → Datapath
  unfolding jump
  riscv_jr instr = jump instr (narrow 64 (add_word w instr.v_src0 instr.v_imm))

  unfoldable pub jr : Datapath → Datapath
  unfolding jump align_up
  jr instr =
      let i =
        if instr.v_src0 % 4 == 0 then instr else record instr { trap = Trap.unaligned_fetch } in
      jump i (align_up w 2 i.v_src0)

  unfoldable pub jump_and_link : (Datapath → Datapath) → Datapath → Datapath
  jump_and_link go instr = go (record instr { v_dst0 = narrow w instr.new_pc })

  unfoldable pub branch_and_link : (Datapath → Bool) → Datapath → Datapath
  unfolding check_halt_trap
  branch_and_link p instr =
      let i = record instr { is_taken_branch = p instr; v_dst0 = narrow w instr.new_pc } in
      if p instr then check_halt_trap (record i { new_pc = i.target }) else i

  -- `~(1U << 2)` is a word of 32 bits.
  unfoldable pub eret : Datapath → Datapath
  unfolding jump
  eret instr =
      let i = jump instr instr.v_src0 in
      record i { v_dst0 = bit_and i.v_dst0 (bit_and i.v_src1 (not_word 32 (2 ^ 2))) }

  unfoldable pub csrrs : Datapath → Datapath
  csrrs instr = record instr { mask = instr.v_src0; v_dst0 = all_ones w; v_dst1 = instr.v_src1 }

unfoldable pub csrrw : Datapath → Datapath
csrrw instr = record instr { v_dst0 = instr.v_src0; v_dst1 = instr.v_src1 }

unfoldable pub csrrwi : Datapath → Datapath
csrrwi instr = record instr { v_dst0 = instr.v_imm; v_dst1 = instr.v_src1 }

unfoldable pub breakpoint : Datapath → Datapath
breakpoint instr = record instr { trap = Trap.breakpoint }

unfoldable pub syscall : Datapath → Datapath
syscall instr = record instr { trap = Trap.syscall }

unfoldable pub halt : Datapath → Datapath
halt instr = record instr { trap = Trap.halt }

unfoldable pub trap_if : (Datapath → Bool) → Datapath → Datapath
trap_if p instr = if p instr then record instr { trap = Trap.explicit_trap } else instr

unfoldable pub unknown_instruction : Datapath → Datapath
unknown_instruction instr = record instr { trap = Trap.unknown_instruction }
