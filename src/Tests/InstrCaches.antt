-- ===== src/Tests/InstrCaches.antt =====
-- The instruction cache and the functional simulator at concrete words.
use mipt_mips.Prelude.{
  ap, bit_or, leb, ltb, ◌&&◌, ℕ, ◌-◌, ◌^◌, ◌≡◌, ◌≢◌, ◌↔◌, refl, true, false, Option, none, some,
  List, [], ◌∷◌, map, ◌==◌, if◌then◌else◌, get_or, set, replicate, arith,
}
use mipt_mips.Endian.{Endian}
use mipt_mips.Prelude.Word.{narrow}
use mipt_mips.Prelude.Digits.{testbit}
use mipt_mips.Trap.{Entry, id, Trap, convert_to, converter, same_trap}
use mipt_mips.Operation.{Datapath, execute}
use mipt_mips.RegisterFile.{mips_register, read, read_sources, write_dst}
use mipt_mips.Memory.Access.{FuncMemory, load_store}
use mipt_mips.Memory.Plain.{new_plain, memcpy_guest_to_host, memcpy_host_to_guest, strlen}
use mipt_mips.Replacement.Lru.{last?}
use mipt_mips.InstrCache.{IsKey, HashTable, InstrCache, new_cache, find, update}
use mipt_mips.InstrCache.Coherence.{IsCoherent, new_cache-IsCoherent}
use mipt_mips.InstrCache.Eviction.{update-find}
use mipt_mips.InstrCache.InstrMemory.{Isa, fetch_instr, fetch_all}
use mipt_mips.InstrCache.Fetch.{fetch_all-new_cache}
use mipt_mips.FuncSim.{update_pc, update_and_check_nop_counter}
use mipt_mips.FuncSim.Machine.{FuncIsa, Machine, Outcome, run, direct, cached, round}
use mipt_mips.Tests.Machine.{idle}
use mipt_mips.FuncSim.Drivers.{
  status, cause, epc, mips_handle_trap, SupervisorRegisters, riscv_handle_trap,
}
use mipt_mips.FuncSim.Vector.{riscv_handle_trap-scause}
use mipt_mips.FuncSim.Handler.{mips_handle_trap-handled}
use mipt_mips.Tests.Predictors.{causes}
use mipt_mips.FuncSim.Runs.{forget_result, Avoids, run-new_cache}

-- A hash map that is a function; there is nothing at the empty key.
abbrev function_table : HashTable
function_table = record {
  Table = ℕ → Option ℕ;
  fresh = λ k. none;
  lookup = λ t k. if k == 0 then none else t k;
  emplace = λ t k v j. if k == j then some v else t j;
  remove = λ t k j. if k == j then none else t j;
  lookup-fresh = λ k. ground arith;
  lookup-empty_key = λ t. refl;
  lookup-emplace = λ t k v j kk kj missing. ground (arith, kj.0);
  lookup-remove = λ t k j kk kj. ground (arith, kj.0);
}

abbrev low_key : IsKey 4
low_key = ((λ e. omega (arith, e)), λ e. omega (arith, e))

update-find_example :
    (victim : ℕ) × (c' : InstrCache function_table ℕ) × (last?
        (new_cache function_table ℕ 2).lru.lru_list
      ≡ some victim)
    × (update function_table ℕ (new_cache function_table ℕ 2) 4 7 ≡ some c')
    × IsCoherent function_table 2 c'
    × (find function_table ℕ c' 4 ≡ (true, some 7))
    × ((k : ℕ) (u : ℕ)
        → IsKey k
        → k ≢ 4
        → (find function_table ℕ c' k ≡ (true, some u)) ↔ (
            (find function_table ℕ (new_cache function_table ℕ 2) k ≡ (true, some u))
            × (k ≢ get_or (new_cache function_table ℕ 2).keys victim 0)))
unfolding find new_cache
update-find_example =
    update-find function_table 2 (new_cache function_table ℕ 2) 4 7
      (new_cache-IsCoherent function_table 2) (omega arith) low_key refl

abbrev plain : FuncMemory
plain = record {
  Memory = List ℕ;
  memcpy_guest_to_host = memcpy_guest_to_host;
  memcpy_host_to_guest = memcpy_host_to_guest;
  strlen = strlen;
}

-- An instruction that is its word.
abbrev words : Isa
words = record {
  Instr = ℕ;
  create_instr = λ bytes endian pc. bytes;
  is_same_bytes = λ instr bytes. instr == bytes;
  is_same_bytes_lem = λ bytes other endian pc same. ground (arith, same);
}

-- A jump to the address 8, with the word for its immediate.
abbrev jumps : FuncIsa
jumps = record {
  isa = words;
  bytes = 4;
  register = mips_register;
  datapath = λ instr. record idle { v_imm = instr; new_pc = 8 };
  executor = λ instr d. d;
  src0 = λ instr. 0;
  src1 = λ instr. 0;
  dst0 = λ instr. 0;
  dst1 = λ instr. 0;
  is_nop = λ instr. false;
}

abbrev code : List ℕ
code = set (set (new_plain 4) 4 8) 8 4

abbrev other_code : List ℕ
other_code = set code 4 12

fetch_all-new_cache_example :
    (c' : InstrCache function_table ℕ) × (fetch_all plain words function_table Endian.little
        (new_cache function_table ℕ 2)
        ((4, code) ∷ (4, other_code) ∷ [])
      ≡ some (
        c',
        map
            (λ (r : ℕ × List ℕ). fetch_instr plain words Endian.little r.0 r.1)
            ((4, code) ∷ (4, other_code) ∷ []),
      ))
fetch_all-new_cache_example =
    fetch_all-new_cache plain words function_table Endian.little 2
      ((4, code) ∷ (4, other_code) ∷ []) (omega arith)
      ((λ e. omega (arith, e)), ((λ e. omega (arith, e)), tt))

abbrev start : Machine plain jumps
start = record {
  rf = replicate 98 0;
  sequencer = record { pc = 4 ∷ replicate 7 0; delayed_slots = 0; nops_in_a_row = 0 };
  sequence_id = 0;
  memory = code;
}

-- A kernel that leaves the trap as it is.
abbrev no_kernel : Unit {0} → Machine plain jumps → Unit {0} × Machine plain jumps × Outcome
no_kernel k m = (k, m, Outcome.returns Trap.syscall)

abbrev no_driver : Datapath → Machine plain jumps → Option (Machine plain jumps × Trap)
no_driver d m = some (m, Trap.no_trap)

four_low : 4 ≢ 2 ^ 64 - 1
four_low e = omega (arith, e)

eight_low : 8 ≢ 2 ^ 64 - 1
eight_low e = omega (arith, e)

start-Avoids :
    Avoids plain jumps no_kernel no_driver Endian.little function_table 2
      (record { imem_state = tt; machine = start; kernel_state = tt })
unfolding Avoids round read_sources load_store write_dst update_pc update_and_check_nop_counter
    execute fetch_instr
start-Avoids = (four_low, (eight_low, tt))

run-new_cache_example :
    forget_result plain jumps no_kernel no_driver Endian.little function_table (
      run plain jumps no_kernel no_driver Endian.little
        (cached plain jumps function_table Endian.little)
        2
        (record { imem_state = new_cache function_table ℕ 2; machine = start; kernel_state = tt }))
    ≡ run plain jumps no_kernel no_driver Endian.little
        (direct plain jumps Endian.little)
        2
        (record { imem_state = tt; machine = start; kernel_state = tt })
run-new_cache_example =
    run-new_cache plain jumps no_kernel no_driver Endian.little function_table 2 2 start tt
      (omega arith) start-Avoids

abbrev system_call : Datapath
system_call = record idle { trap = Trap.syscall; pc = 4 }

mips_handle_trap-handled_example :
    (m' : Machine plain jumps) × (mips_handle_trap plain jumps causes system_call start
      ≡ some (m', Trap.no_trap))
    × (m'.memory ≡ start.memory)
    × (m'.sequencer
        ≡ record start.sequencer { pc = set start.sequencer.pc 0 0x800000180; delayed_slots = 0 })
    × (m'.sequence_id ≡ 0)
    × (read m'.rf epc ≡ some (narrow 32 4))
    × (read m'.rf status ≡ some (narrow 32 (bit_or (narrow 64 (get_or start.rf status 0)) 0x2)))
    × ((v : ℕ) × (read m'.rf cause ≡ some (narrow 32 v))
        × ((n : ℕ)
            → testbit v n ≡ (
                if leb 2 n && ltb n 6
                then testbit 8 (n - 2)
                else testbit (narrow 64 (get_or start.rf cause 0)) n)))
    × ((r : ℕ) → r ≢ status → r ≢ cause → r ≢ epc → read m'.rf r ≡ read start.rf r)
unfolding convert_to converter same_trap
mips_handle_trap-handled_example =
    mips_handle_trap-handled plain jumps causes system_call start 8 refl refl refl refl

abbrev supervisor : SupervisorRegisters
supervisor = record { stvec = 90; scause = 91; sepc = 92 }

system_call_valid : system_call.trap ≢ Trap.invalid_trap
unfolding id
system_call_valid e = omega (arith, ap id e)

riscv_handle_trap-scause_example :
    (m' : Machine plain jumps) × (trap : Trap) × (code : ℕ) × (riscv_handle_trap plain jumps
        mips_register supervisor causes system_call start
      ≡ some (m', trap))
    × (convert_to (λ (e : Entry). e.riscv) Trap.syscall (converter causes) ≡ some code)
    × (read m'.rf 91 ≡ some (narrow 32 code))
riscv_handle_trap-scause_example =
    riscv_handle_trap-scause plain jumps mips_register supervisor causes system_call start
      system_call_valid refl refl (λ e. omega (arith, e)) (omega arith) (omega arith) (omega arith)
