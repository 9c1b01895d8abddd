-- ===== src/Trap.antt =====
-- func_sim/traps: the traps, and their numbers in the GDB, RISC-V and MIPS formats. The table is
-- trap.def; the RISC-V causes come from a generated header, and are arguments here.
pub mod Formats
use mipt_mips.Prelude.{ℕ, Bool, true, false, Option, none, some, List, [], ◌∷◌, ◌==◌, if◌then◌else◌}

-- In the order of trap.def.
pub data Trap : Type 0 where
  no_trap halt breakpoint explicit_trap syscall integer_overflow unsupported_syscall : Trap
  unknown_instruction reserved_instruction coprocessor_unusable : Trap
  unaligned_load unaligned_store unaligned_fetch fp_overflow fp_underflow fp_div_by_zero : Trap
  invalid_trap : Trap

-- The value of the enumeration.
unfoldable pub id : Trap → ℕ
id Trap.no_trap = 0
id Trap.halt = 1
id Trap.breakpoint = 2
id Trap.explicit_trap = 3
id Trap.syscall = 4
id Trap.integer_overflow = 5
id Trap.unsupported_syscall = 6
id Trap.unknown_instruction = 7
id Trap.reserved_instruction = 8
id Trap.coprocessor_unusable = 9
id Trap.unaligned_load = 10
id Trap.unaligned_store = 11
id Trap.unaligned_fetch = 12
id Trap.fp_overflow = 13
id Trap.fp_underflow = 14
id Trap.fp_div_by_zero = 15
id Trap.invalid_trap = 16

unfoldable pub same_trap : Trap → Trap → Bool
unfolding id
same_trap a b = id a == id b

pub record Entry : Type 0 where
  pub trap : Trap
  pub gdb : ℕ
  pub riscv : ℕ
  pub mips : ℕ

-- The constants `CAUSE_…` of riscv.opcode.gen.h.
pub record RiscvCauses : Type 0 where
  pub breakpoint : ℕ
  pub user_ecall : ℕ
  pub illegal_instruction : ℕ
  pub misaligned_load : ℕ
  pub misaligned_store : ℕ
  pub misaligned_fetch : ℕ

module _ (c : RiscvCauses) where
  unfoldable pub converter : List Entry
  converter =
      record { trap = Trap.no_trap; gdb = 0; riscv = 0x10; mips = 0 }
      ∷ record { trap = Trap.halt; gdb = 0; riscv = 0x10; mips = 0 }
      ∷ record { trap = Trap.breakpoint; gdb = 5; riscv = c.breakpoint; mips = 13 }
      ∷ record { trap = Trap.explicit_trap; gdb = 5; riscv = c.breakpoint; mips = 9 }
      ∷ record { trap = Trap.syscall; gdb = 5; riscv = c.user_ecall; mips = 8 }
      ∷ record { trap = Trap.integer_overflow; gdb = 5; riscv = 0x10; mips = 12 }
      ∷ record { trap = Trap.unsupported_syscall; gdb = 12; riscv = 0x10; mips = 0 }
      ∷ record {
        trap = Trap.unknown_instruction;
        gdb = 4;
        riscv = c.illegal_instruction;
        mips = 10;
      }
      ∷ record {
        trap = Trap.reserved_instruction;
        gdb = 4;
        riscv = c.illegal_instruction;
        mips = 10;
      }
      ∷ record {
        trap = Trap.coprocessor_unusable;
        gdb = 4;
        riscv = c.illegal_instruction;
        mips = 11;
      }
      ∷ record { trap = Trap.unaligned_load; gdb = 10; riscv = c.misaligned_load; mips = 4 }
      ∷ record { trap = Trap.unaligned_store; gdb = 10; riscv = c.misaligned_store; mips = 5 }
      ∷ record { trap = Trap.unaligned_fetch; gdb = 10; riscv = c.misaligned_fetch; mips = 4 }
      ∷ record { trap = Trap.fp_overflow; gdb = 10; riscv = 0x10; mips = 16 }
      ∷ record { trap = Trap.fp_underflow; gdb = 10; riscv = 0x10; mips = 17 }
      ∷ record { trap = Trap.fp_div_by_zero; gdb = 10; riscv = 0x10; mips = 15 }
      ∷ []

-- `convert_to`; `none` is the exception `InvalidTrapConversion`.
unfoldable pub convert_to : (Entry → ℕ) → Trap → List Entry → Option ℕ
unfolding same_trap
convert_to field trap [] = none
convert_to field trap (e ∷ es) =
    if same_trap e.trap trap then some (field e) else convert_to field trap es

-- `convert_from`. The table is a hash map, so the order in which it is searched is any order of the
-- entries.
unfoldable pub convert_from : (Entry → ℕ) → ℕ → List Entry → Option Trap
convert_from field code [] = none
convert_from field code (e ∷ es) =
    if field e == code then some e.trap else convert_from field code es
