-- ===== src/FuncSim/Handler.antt =====
-- mips/mips_driver.cpp: the registers and the program counter after a trap.
use mipt_mips.Prelude.{
  ℕ, ◌*◌, ◌-◌, ◌^◌, ◌<◌, ◌≡◌, ◌≢◌, refl, ◌∙◌, true, false, ◌&&◌, some, set, length, get_or,
  if◌then◌else◌, bit_and, bit_or, ◌==◌, ltb, leb, arith, get_elem?-eq-get_or, length-set,
}
use mipt_mips.Prelude.Word.{narrow, not_word, shl}
use mipt_mips.Prelude.Digits.{
  testbit, testbit-and, testbit-or, testbit-not, testbit-shl, testbit-mod, testbit-ones,
  testbit_above,
}
use mipt_mips.Macro.{bitmask}
use mipt_mips.Macro.Laws.{bitmask_lem}
use mipt_mips.Trap.{Trap, RiscvCauses, Entry, same_trap, convert_to, converter}
use mipt_mips.Operation.{Datapath}
use mipt_mips.RegisterFile.{Registers, mips_register, read}
use mipt_mips.RegisterFile.Access.{read-set, write-set}
use mipt_mips.Memory.Access.{FuncMemory}
use mipt_mips.FuncSim.Machine.{FuncIsa, Machine}
use mipt_mips.FuncSim.Drivers.{
  status, cause, epc, with_code, read_register, write_register, set_target, set_pc, enter_handler,
  mips_handle_trap,
}

bitmask_4 : bitmask 64 4 ≡ 2 ^ 4 - 1
bitmask_4 = bitmask_lem 64 4 (omega arith) (omega arith)

-- A number of four digits, two places up.
testbit_code :
    (code n : ℕ)
    → testbit (shl 64 (bit_and code (2 ^ 4 - 1)) 2) n
      ≡ (if leb 2 n && ltb n 6 then testbit code (n - 2) else false)
testbit_code code n =
    rw
      (
        testbit-mod (bit_and code (2 ^ 4 - 1) * 2 ^ 2) 64 n,
        testbit-shl (bit_and code (2 ^ 4 - 1)) 2 n,
        testbit-and code (2 ^ 4 - 1) (n - 2),
        testbit-ones 4 (n - 2),
      )
      (ground arith)

testbit_field : (n : ℕ) → testbit (shl 64 (2 ^ 4 - 1) 2) n ≡ (leb 2 n && ltb n 6)
testbit_field n =
    rw (testbit-mod ((2 ^ 4 - 1) * 2 ^ 2) 64 n, testbit-shl (2 ^ 4 - 1) 2 n, testbit-ones 4 (n - 2))
      (ground arith)

-- The code of the trap is in the digits from 2 to 5, up to its lowest four, and the others stay.
testbit-with_code :
    (old code n : ℕ)
    → old < 2 ^ 64
    → testbit (with_code old code) n
      ≡ (if leb 2 n && ltb n 6 then testbit code (n - 2) else testbit old n)
unfolding with_code
testbit-with_code old code n small =
    let high : leb 64 n ≡ true → testbit old n ≡ false =
      λ past. testbit_above old 64 n small (ground (arith, past)) in
    rw
      (
        bitmask_4,
        testbit-or (bit_and old (not_word 64 (shl 64 (2 ^ 4 - 1) 2)))
            (shl 64 (bit_and code (2 ^ 4 - 1)) 2) n,
        testbit-and old (not_word 64 (shl 64 (2 ^ 4 - 1) 2)) n,
        testbit-not 64 (shl 64 (2 ^ 4 - 1) 2) n (omega arith),
        testbit_field n,
        testbit_code code n,
      )
      (ground (arith, high))

-- The register file after `mips_handle_trap`.
abbrev handled_registers : ℕ → Registers → ℕ → ℕ → Registers
handled_registers w rf code pc =
    let with_status = set rf status (narrow w (bit_or (narrow 64 (get_or rf status 0)) 0x2)) in
    let with_cause =
      set with_status cause (narrow w (with_code (narrow 64 (get_or rf cause 0)) code)) in
    set with_cause epc (narrow w pc)

read_handled :
    (w : ℕ) (rf : Registers) (code pc r : ℕ)
    → length rf ≡ 98
    → read (handled_registers w rf code pc) r ≡ (
        if epc == r
        then some (narrow w pc)
        else if cause == r
        then some (narrow w (with_code (narrow 64 (get_or rf cause 0)) code))
        else if status == r
        then some (narrow w (bit_or (narrow 64 (get_or rf status 0)) 0x2))
        else read rf r)
read_handled w rf code pc r size =
    let rf1 = set rf status (narrow w (bit_or (narrow 64 (get_or rf status 0)) 0x2)) in
    let cause_value = narrow w (with_code (narrow 64 (get_or rf cause 0)) code) in
    let rf2 = set rf1 cause cause_value in
    let size1 : length rf1 ≡ 98 = length-set rf status _ ∙ size in
    let size2 : length rf2 ≡ 98 = length-set rf1 cause cause_value ∙ size1 in
    rw
      (
        read-set rf2 epc (narrow w pc) r (omega (arith, size2)),
        read-set rf1 cause cause_value r (omega (arith, size1)),
        read-set rf status (narrow w (bit_or (narrow 64 (get_or rf status 0)) 0x2)) r
            (omega (arith, size)),
      )
      refl

module _ (f : FuncMemory) (i : FuncIsa) (causes : RiscvCauses) where
  abbrev handled : Machine f i → ℕ → ℕ → Machine f i
  handled m code pc = record m {
    rf = handled_registers (8 * i.bytes) m.rf code pc;
    sequencer = record m.sequencer { pc = set m.sequencer.pc 0 0x800000180; delayed_slots = 0 };
    sequence_id = 0;
  }

  -- A trap that is handled sets the digit 1 of the status, the code in the cause and the address in
  -- the EPC, and puts the handler's address into the first place of the program counter.
  enter_handler-state :
      (instr : Datapath) (m : Machine f i) (code : ℕ)
      → length m.rf ≡ 98
      → convert_to (λ (e : Entry). e.mips) instr.trap (converter causes) ≡ some code
      → enter_handler f i causes instr m ≡ some (handled m code instr.pc, Trap.no_trap)
  unfolding enter_handler read_register write_register set_pc set_target read
  enter_handler-state instr m code size known =
      let w : ℕ = 8 * i.bytes in
      let status_value = bit_or (narrow 64 (get_or m.rf status 0)) 0x2 in
      let cause_value = with_code (narrow 64 (get_or m.rf cause 0)) code in
      let rf1 = set m.rf status (narrow w status_value) in
      let rf2 = set rf1 cause (narrow w cause_value) in
      let size1 : length rf1 ≡ 98 = length-set m.rf status (narrow w status_value) ∙ size in
      let size2 : length rf2 ≡ 98 = length-set rf1 cause (narrow w cause_value) ∙ size1 in
      rw
        (
          get_elem?-eq-get_or m.rf status 0 (omega (arith, size)),
          get_elem?-eq-get_or m.rf cause 0 (omega (arith, size)),
          known,
          write-set mips_register m.rf status (narrow w status_value) refl (omega (arith, size)),
          write-set mips_register rf1 cause (narrow w cause_value) refl (omega (arith, size1)),
          write-set mips_register rf2 epc (narrow w instr.pc) refl (omega (arith, size2)),
        )
        refl

  -- After a trap other than no trap and HALT, whose code is known, the driver of MIPS32 has no trap,
  -- and the machine goes on at 0x800000180, outside of a delay slot, with the same memory. The EPC
  -- has the address of the instruction, the status its digit 1 set, the cause the code of the trap
  -- in its digits from 2 to 5 and its other digits as they were, and all other registers are as they
  -- were; what is written is cut to the width of the registers.
  pub mips_handle_trap-handled :
      (instr : Datapath) (m : Machine f i) (code : ℕ)
      → length m.rf ≡ 98
      → same_trap instr.trap Trap.no_trap ≡ false
      → same_trap instr.trap Trap.halt ≡ false
      → convert_to (λ (e : Entry). e.mips) instr.trap (converter causes) ≡ some code
      → (m' : Machine f i) × (mips_handle_trap f i causes instr m ≡ some (m', Trap.no_trap))
        × (m'.memory ≡ m.memory)
        × (m'.sequencer
            ≡ record m.sequencer { pc = set m.sequencer.pc 0 0x800000180; delayed_slots = 0 })
        × (m'.sequence_id ≡ 0)
        × (read m'.rf epc ≡ some (narrow (8 * i.bytes) instr.pc))
        × (read m'.rf status
            ≡ some (narrow (8 * i.bytes) (bit_or (narrow 64 (get_or m.rf status 0)) 0x2)))
        × ((v : ℕ) × (read m'.rf cause ≡ some (narrow (8 * i.bytes) v))
            × ((n : ℕ)
                → testbit v n ≡ (
                    if leb 2 n && ltb n 6
                    then testbit code (n - 2)
                    else testbit (narrow 64 (get_or m.rf cause 0)) n)))
        × ((r : ℕ) → r ≢ status → r ≢ cause → r ≢ epc → read m'.rf r ≡ read m.rf r)
  unfolding mips_handle_trap
  mips_handle_trap-handled instr m code size trapped running known =
      let w : ℕ = 8 * i.bytes in
      let cause_value : ℕ = narrow 64 (get_or m.rf cause 0) in
      (
        handled m code instr.pc,
        rw (trapped, running) (enter_handler-state instr m code size known),
        refl,
        refl,
        refl,
        read_handled w m.rf code instr.pc epc size,
        read_handled w m.rf code instr.pc status size,
        (
          with_code cause_value code,
          read_handled w m.rf code instr.pc cause size,
          λ n. testbit-with_code cause_value code n (ground arith),
        ),
        λ r rs rc re. read_handled w m.rf code instr.pc r size ∙ ground (arith, rs, rc, re),
      )
