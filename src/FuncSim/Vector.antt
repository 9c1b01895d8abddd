-- ===== src/FuncSim/Vector.antt =====
-- risc_v/riscv_driver.cpp: the cause that the driver leaves behind.
use mipt_mips.Prelude.{
  ℕ, ◌*◌, ◌<◌, ◌≡◌, ◌≢◌, refl, ◌∙◌, Bool-cases, false, ◌||◌, some, set, length, get_or,
  if◌then◌else◌, ◌==◌, inl, inr, arith, get_elem?-eq-get_or, length-set,
}
use mipt_mips.Prelude.Word.{narrow}
use mipt_mips.Macro.{trap_vector_address}
use mipt_mips.Trap.{Trap, RiscvCauses, Entry, same_trap, convert_to, converter}
use mipt_mips.Trap.Formats.{convert_to_total}
use mipt_mips.Operation.{Datapath}
use mipt_mips.RegisterFile.{RegisterClass, read}
use mipt_mips.RegisterFile.Access.{read-set, write-set}
use mipt_mips.Memory.Access.{FuncMemory}
use mipt_mips.FuncSim.Machine.{FuncIsa, Machine}
use mipt_mips.FuncSim.Drivers.{
  SupervisorRegisters, read_register, write_register, set_target, set_pc, enter_vector,
  riscv_handle_trap,
}

module _ (f : FuncMemory) (i : FuncIsa) (c : RegisterClass) (csr : SupervisorRegisters)
    (causes : RiscvCauses) where
  enter_vector-scause :
      (instr : Datapath) (m : Machine f i)
      → c.is_zero csr.sepc ≡ false
      → csr.sepc ≢ csr.scause
      → csr.sepc < length m.rf
      → csr.stvec < length m.rf
      → (m' : Machine f i) × (trap : Trap) × (enter_vector f i c csr causes instr m
          ≡ some (m', trap))
        × (read m'.rf csr.scause ≡ read m.rf csr.scause)
  unfolding enter_vector read_register write_register set_pc set_target read
  enter_vector-scause instr m other apart epc_in tvec_in =
      let tvec = narrow 64 (get_or m.rf csr.stvec 0) in
      let pc = narrow (8 * i.bytes) instr.pc in
      (
        set_pc f i (record m { rf = set m.rf csr.sepc pc }) (trap_vector_address 64 tvec),
        (if tvec == 0 then Trap.halt else Trap.no_trap),
        rw (get_elem?-eq-get_or m.rf csr.stvec 0 tvec_in, write-set c m.rf csr.sepc pc other epc_in)
            refl,
        read-set m.rf csr.sepc pc csr.scause epc_in ∙ ground (arith, apart),
      )

  -- For an instruction with any trap but INVALID_TRAP, no trap and HALT among them, the driver of
  -- RISC-V does not fail, and afterwards `scause` has the code of that trap, if `stvec`, `scause` and
  -- `sepc` are in the file, `scause` and `sepc` are different and neither is the zero register.
  pub riscv_handle_trap-scause :
      (instr : Datapath) (m : Machine f i)
      → instr.trap ≢ Trap.invalid_trap
      → c.is_zero csr.sepc ≡ false
      → c.is_zero csr.scause ≡ false
      → csr.sepc ≢ csr.scause
      → csr.sepc < length m.rf
      → csr.scause < length m.rf
      → csr.stvec < length m.rf
      → (m' : Machine f i) × (trap : Trap) × (code : ℕ) × (riscv_handle_trap f i c csr causes instr
            m
          ≡ some (m', trap))
        × (convert_to (λ (e : Entry). e.riscv) instr.trap (converter causes) ≡ some code)
        × (read m'.rf csr.scause ≡ some (narrow (8 * i.bytes) code))
  unfolding riscv_handle_trap write_register
  riscv_handle_trap-scause instr m valid epc_other cause_other apart epc_in cause_in tvec_in =
      let (code, known) = convert_to_total causes (λ (e : Entry). e.riscv) instr.trap valid in
      let v = narrow (8 * i.bytes) code in
      let m1 : Machine f i = record m { rf = set m.rf csr.scause v } in
      let size : length m1.rf ≡ length m.rf = length-set m.rf csr.scause v in
      let written : read m1.rf csr.scause ≡ some v =
        read-set m.rf csr.scause v csr.scause cause_in ∙ ground arith in
      elim (Bool-cases (same_trap instr.trap Trap.no_trap || same_trap instr.trap Trap.halt)) [
        | inl idle ↦ (
          m1,
          instr.trap,
          code,
          rw (known, write-set c m.rf csr.scause v cause_other cause_in, idle) refl,
          known,
          written,
        )
        | inr trapped ↦
            let (m', trap, entered, kept) =
              enter_vector-scause instr m1 epc_other apart (omega (arith, size, epc_in))
                (omega (arith, size, tvec_in)) in
            (
              m',
              trap,
              code,
              rw (known, write-set c m.rf csr.scause v cause_other cause_in, trapped) entered,
              known,
              kept ∙ written,
            )
      ]
