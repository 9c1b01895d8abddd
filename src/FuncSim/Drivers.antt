-- ===== src/FuncSim/Drivers.antt =====
-- func_sim/driver/driver.cpp, mips/mips_driver.cpp and risc_v/riscv_driver.cpp: what follows a trap,
-- over the machine of the functional simulator. `none` is an exception.
use mipt_mips.Prelude.{ℕ, ◌*◌, ◌==◌, ◌||◌, Option, some, set, if◌then◌else◌, bit_and, bit_or, ◌>>=◌}
use mipt_mips.Prelude.Word.{narrow, not_word, shl}
use mipt_mips.Macro.{bitmask, trap_vector_address}
use mipt_mips.Trap.{Trap, RiscvCauses, Entry, same_trap, convert_to, converter}
use mipt_mips.Operation.{Datapath}
use mipt_mips.RegisterFile.{RegisterClass, mips_register, read, write}
use mipt_mips.Memory.Access.{FuncMemory}
use mipt_mips.FuncSim.Machine.{FuncIsa, Machine}

-- The numbers of the registers of the coprocessor 0 in the file.
abbrev pub status : ℕ
status = 46

abbrev pub cause : ℕ
cause = 47

abbrev pub epc : ℕ
epc = 48

-- `cause` with the code of the trap in its digits from 2 to 5.
unfoldable pub with_code : ℕ → ℕ → ℕ
unfolding bitmask
with_code old code =
    bit_or (bit_and old (not_word 64 (shl 64 (bitmask 64 4) 2)))
      (shl 64 (bit_and code (bitmask 64 4)) 2)

module _ (f : FuncMemory) (i : FuncIsa) where
  abbrev pub Driver : Type 0
  Driver = Datapath → Machine f i → Option (Machine f i × Trap)

  -- `read_register` and `write_register` of `FuncSim`.
  unfoldable pub read_register : Machine f i → ℕ → Option ℕ
  unfolding read
  read_register m index = read m.rf index >>= λ value. some (narrow 64 value)

  unfoldable pub write_register : RegisterClass → Machine f i → ℕ → ℕ → Option (Machine f i)
  unfolding write
  write_register c m index value =
      write c m.rf index (narrow (8 * i.bytes) value) >>= λ rf. some (record m { rf = rf })

  unfoldable pub set_target : Machine f i → ℕ → ℕ → Machine f i
  set_target m address sequence_id = record m {
    sequencer = record m.sequencer { pc = set m.sequencer.pc 0 address; delayed_slots = 0 };
    sequence_id = sequence_id;
  }

  unfoldable pub set_pc : Machine f i → ℕ → Machine f i
  unfolding set_target
  set_pc m pc = set_target m pc 0

  -- `DriverNoOp`
  unfoldable pub no_op_handle_trap : Driver
  unfolding same_trap
  no_op_handle_trap instr m =
      some (m, if same_trap instr.trap Trap.halt then instr.trap else Trap.no_trap)

  -- `HookedDriver`
  unfoldable pub hooked_handle_trap : Driver → Driver
  hooked_handle_trap driver instr m = driver instr m >>= λ (m', trap). some (m', instr.trap)

  -- The end of `DriverMIPS32::handle_trap`, for a trap that is handled.
  unfoldable pub enter_handler : RiscvCauses → Driver
  unfolding read_register write_register set_pc with_code convert_to converter
  enter_handler causes instr m = do
    status_value ← read_register m status
    cause_value ← read_register m cause
    code ← convert_to (λ (e : Entry). e.mips) instr.trap (converter causes)
    m1 ← write_register mips_register m status (bit_or status_value 0x2)
    m2 ← write_register mips_register m1 cause (with_code cause_value code)
    m3 ← write_register mips_register m2 epc instr.pc
    some (set_pc m3 0x800000180, Trap.no_trap)

  -- `DriverMIPS32`
  unfoldable pub mips_handle_trap : RiscvCauses → Driver
  unfolding same_trap enter_handler
  mips_handle_trap causes instr m =
      if same_trap instr.trap Trap.no_trap || same_trap instr.trap Trap.halt
      then some (m, instr.trap)
      else enter_handler causes instr m

-- The numbers of the registers of the supervisor, of a generated header.
pub record SupervisorRegisters : Type 0 where
  pub stvec : ℕ
  pub scause : ℕ
  pub sepc : ℕ

module _ (f : FuncMemory) (i : FuncIsa) (c : RegisterClass) (csr : SupervisorRegisters)
    (causes : RiscvCauses) where
  -- The end of `DriverRISCV32::handle_trap`, for a trap that is handled.
  unfoldable pub enter_vector : Driver f i
  unfolding read_register write_register set_pc trap_vector_address
  enter_vector instr m = do
    tvec ← read_register f i m csr.stvec
    m1 ← write_register f i c m csr.sepc instr.pc
    some
        (set_pc f i m1 (trap_vector_address 64 tvec), if tvec == 0 then Trap.halt else Trap.no_trap)

  -- `DriverRISCV32`
  unfoldable pub riscv_handle_trap : Driver f i
  unfolding same_trap enter_vector write_register convert_to converter
  riscv_handle_trap instr m = do
    code ← convert_to (λ (e : Entry). e.riscv) instr.trap (converter causes)
    m1 ← write_register f i c m csr.scause code
    (if same_trap instr.trap Trap.no_trap || same_trap instr.trap Trap.halt
        then some (m1, instr.trap)
        else enter_vector instr m1)
