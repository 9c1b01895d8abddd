-- ===== src/Riscv/Operands.antt =====
-- The operands of every RISC-V instruction that the constructor makes.
use mipt_mips.Prelude.{
  ℕ, ◌+◌, ◌*◌, ◌%◌, ◌^◌, ◌≤◌, ◌<◌, ◌≡◌, refl, ◌||◌, not, List, [], ◌∷◌, ◌==◌, length, Bool, false,
  ◌⊎◌, inl, inr, ltb, map, All, some, arith, length-map, if◌then◌else◌,
}
use mipt_mips.Prelude.Word.{countr_zero}
use mipt_mips.Operation.{is_load, is_store}
use mipt_mips.Mips.Fields.{apply_mask-field}
use mipt_mips.Mips.Construct.{fill}
use mipt_mips.Mips.Operands.{fill_lem, bind-some}
use mipt_mips.Riscv.{
  Reg, apply_mask, get_register, from_cpu_popular_index, max_reg, try_read, get_csr_regnum,
}
use mipt_mips.Riscv.Tables.{Opcodes, RiscvTableEntry}
use mipt_mips.Riscv.Construct.{
  RiscvInstr, cmd_desc, find_bytes, is_compressed, from_entry, init_instr, riscv_instr,
}
use mipt_mips.Riscv.Shape.{IsWidth, is_fence, entry_parts}

-- The address of a CSR is in the list.
pub is_declared : List ℕ → ℕ → Bool
is_declared [] key = false
is_declared (value ∷ csrs) key = value == key || is_declared csrs key

try_read_lem :
    (csrs : List ℕ) (num key bad : ℕ)
    → num + length csrs ≤ bad
    → (num ≤ try_read csrs num key bad)
      × (try_read csrs num key bad ≤ bad)
      × (ltb (try_read csrs num key bad) bad ≡ is_declared csrs key)
unfolding try_read is_declared
try_read_lem [] num key bad fits = ground (arith, fits)
try_read_lem (value ∷ csrs) num key bad fits =
    ground (arith, fits, try_read_lem csrs (num + 1) key bad)

-- A register of an instruction: one of the 32 registers, or that of a CSR, whose address is in the
-- twelve highest digits of the word or is that of SEPC or MEPC. The register of a CSR is one of the
-- file exactly if the CSR is declared, and `MAX_VAL_RegNum` if it is not.
pub IsOperand : List ℕ → ℕ → ℕ → Type 0
IsOperand csrs bytes r =
    (r < 32)
    ⊎ (key : ℕ) × ((key ≡ apply_mask bytes 0xfff00000) ⊎ (key ≡ 0x141) ⊎ (key ≡ 0x341))
      × (r ≡ get_csr_regnum csrs key)
      × (32 ≤ r)
      × (r ≤ max_reg csrs)
      × (ltb r (max_reg csrs) ≡ is_declared csrs key)

csr-IsOperand :
    (csrs : List ℕ) (bytes key : ℕ)
    → (key ≡ apply_mask bytes 0xfff00000) ⊎ (key ≡ 0x141) ⊎ (key ≡ 0x341)
    → IsOperand csrs bytes (get_csr_regnum csrs key)
unfolding IsOperand get_csr_regnum max_reg
csr-IsOperand csrs bytes key which =
    let (low, high, declared) = try_read_lem csrs 32 key (32 + length csrs) (omega arith) in
    inr (key, which, refl, low, high, declared)

get_register-IsOperand :
    (csrs : List ℕ) (word : ℕ) (r : Reg) → IsOperand csrs word (get_register csrs word r)
unfolding get_register from_cpu_popular_index countr_zero IsOperand
get_register-IsOperand csrs word Reg.reg_zero = inl (omega arith)
get_register-IsOperand csrs word Reg.sp = inl (omega arith)
get_register-IsOperand csrs word Reg.ra = inl (omega arith)
get_register-IsOperand csrs word Reg.sepc = csr-IsOperand csrs word 0x141 (inr (inl refl))
get_register-IsOperand csrs word Reg.mepc = csr-IsOperand csrs word 0x341 (inr (inr refl))
get_register-IsOperand csrs word Reg.csr = csr-IsOperand csrs word _ (inl refl)
get_register-IsOperand csrs word Reg.rd =
    inl (omega (arith, apply_mask-field word 0xf80 7 5 refl refl))
get_register-IsOperand csrs word Reg.rs1 =
    inl (omega (arith, apply_mask-field word 0xf8000 15 5 refl refl))
get_register-IsOperand csrs word Reg.rs2 =
    inl (omega (arith, apply_mask-field word 0x1f00000 20 5 refl refl))
get_register-IsOperand csrs word Reg.rs2_cmp =
    inl (omega (arith, apply_mask-field word 0x7c 2 5 refl refl))
get_register-IsOperand csrs word Reg.rd_3bit =
    inl (omega (arith, apply_mask-field word 0x1c 2 3 refl refl))
get_register-IsOperand csrs word Reg.rs1_3bit =
    inl (omega (arith, apply_mask-field word 0x380 7 3 refl refl))
get_register-IsOperand csrs word Reg.rs2_3bit =
    inl (omega (arith, apply_mask-field word 0x1c 2 3 refl refl))

All-registers :
    (csrs : List ℕ) (word : ℕ) (rs : List Reg)
    → All (IsOperand csrs word) (map (get_register csrs word) rs)
All-registers csrs word [] = _
All-registers csrs word (r ∷ rs) = (get_register-IsOperand csrs word r, All-registers csrs word rs)

registers :
    (csrs : List ℕ) (word n : ℕ) (rs : List Reg)
    → length rs ≤ n
    → (ys : List ℕ) × (fill n (map (get_register csrs word) rs) ≡ some ys)
      × (length ys ≡ n)
      × All (IsOperand csrs word) ys
unfolding IsOperand
registers csrs word n rs fits =
    fill_lem (IsOperand csrs word) n (map (get_register csrs word) rs) (inl (omega arith))
      (rw length-map fits) (All-registers csrs word rs)

-- The registers of the entry of a word fit their arrays, whatever the CSRs.
pub entry_registers :
    (w : ℕ) (opcodes : Opcodes) (csrs : List ℕ) (bytes : ℕ)
    → IsWidth w
    → let e = find_bytes w (cmd_desc w opcodes) bytes in
      ((ys : List ℕ) × (fill 3 (map (get_register csrs bytes) e.src) ≡ some ys))
      × ((ys : List ℕ) × (fill 2 (map (get_register csrs bytes) e.dst) ≡ some ys))
entry_registers w opcodes csrs bytes width =
    let e : RiscvTableEntry = find_bytes w (cmd_desc w opcodes) bytes in
    let parts = entry_parts w opcodes bytes width in
    let src = registers csrs bytes 3 e.src parts.0 in
    let dst = registers csrs bytes 2 e.dst parts.1 in ((src.0, src.1), (dst.0, dst.1))

-- Of the three widths, and whatever the opcodes and the CSRs, the constructor makes an instruction of
-- every word: no access of its arrays throws. Each of the three sources and the two destinations is
-- one of the 32 registers, or that of a CSR, which is in the file exactly if the CSR is declared; the
-- instruction has no more bytes in memory than a register, and it loads or stores exactly where it has
-- any, or is a fence; and the next instruction is two bytes further if it is compressed, and four if
-- not.
pub riscv_instr-some :
    (w : ℕ) (opcodes : Opcodes) (csrs : List ℕ) (bytes pc : ℕ)
    → IsWidth w
    → (instr : RiscvInstr) × (riscv_instr w opcodes csrs bytes pc ≡ some instr)
      × (length instr.src ≡ 3)
      × (length instr.dst ≡ 2)
      × All (IsOperand csrs bytes) instr.src
      × All (IsOperand csrs bytes) instr.dst
      × (8 * instr.mem_size ≤ w)
      × ((is_load instr.operation || is_store instr.operation)
          ≡ (not (instr.mem_size == 0) || is_fence instr.opname))
      × (instr.new_pc
          ≡ (pc + (if is_compressed (find_bytes w (cmd_desc w opcodes) bytes).subset then 2 else 4))
            % 2 ^ 64)
unfolding riscv_instr from_entry init_instr
riscv_instr-some w opcodes csrs bytes pc width =
    let e : RiscvTableEntry = find_bytes w (cmd_desc w opcodes) bytes in
    let parts = entry_parts w opcodes bytes width in
    let src = registers csrs bytes 3 e.src parts.0 in
    let dst = registers csrs bytes 2 e.dst parts.1 in
    (_, bind-some _ _ _ _ _ _ src.1 dst.1 refl, src.2, dst.2, src.3, dst.3, parts.3, parts.2, refl)
