-- ===== src/Mips/Fields.antt =====
-- The fields of an instruction as digits of its word, and the registers that they name.
use mipt_mips.Prelude.{
  ℕ, ◌+◌, ◌-◌, ◌*◌, ◌/◌, ◌%◌, ◌^◌, ◌<◌, ◌≡◌, refl, some, bit_and, arith, sym, get_elem?-replicate,
}
use mipt_mips.Prelude.Word.{countr_zero}
use mipt_mips.Prelude.Digits.{testbit_ext, testbit-and, testbit-shr, testbit-mod, testbit-ones}
use mipt_mips.Riscv.{apply_mask}
use mipt_mips.RegisterFile.{read, new_registers, mips_register}
use mipt_mips.Mips.{decode, MipsReg, get_register, from_cp0_index, from_cp1_index}

field :
    (word mask k n : ℕ)
    → mask / 2 ^ k ≡ 2 ^ n - 1
    → bit_and word mask / 2 ^ k ≡ word / 2 ^ k % 2 ^ n
field word mask k n e = testbit_ext _ _ λ i.
    rw
      (
        testbit-shr (bit_and word mask) k i,
        testbit-and word mask (i + k),
        sym (testbit-shr mask k i),
        e,
        testbit-ones n i,
        testbit-mod (word / 2 ^ k) n i,
        testbit-shr word k i,
      )
      (ground arith)

-- A field of the word under a mask of digits in a row.
pub apply_mask-field :
    (word mask k n : ℕ)
    → countr_zero 32 mask ≡ k
    → mask / 2 ^ k ≡ 2 ^ n - 1
    → apply_mask word mask ≡ word / 2 ^ k % 2 ^ n
unfolding apply_mask
apply_mask-field word mask k n low e = rw low (field word mask k n e)

-- An instruction of 32 bits is put together from the fields of each of its three formats.
pub decode_fields :
    (word : ℕ)
    → word < 2 ^ 32
    → (word
        ≡ (((((decode word).opcode * 2 ^ 5 + (decode word).rs) * 2 ^ 5 + (decode word).rt) * 2 ^ 5
                  + (decode word).rd)
                * 2 ^ 5
              + (decode word).shamt)
            * 2 ^ 6
          + (decode word).funct)
      × (word
          ≡ (((decode word).opcode * 2 ^ 5 + (decode word).rs) * 2 ^ 5 + (decode word).rt) * 2 ^ 16
            + (decode word).imm)
      × (word ≡ (decode word).opcode * 2 ^ 26 + (decode word).jump)
unfolding decode countr_zero
decode_fields word small =
    rw
      (
        apply_mask-field word 0xfc000000 26 6 refl refl,
        apply_mask-field word 0x3e00000 21 5 refl refl,
        apply_mask-field word 0x1f0000 16 5 refl refl,
        apply_mask-field word 0xf800 11 5 refl refl,
        apply_mask-field word 0x7c0 6 5 refl refl,
        apply_mask-field word 0x3f 0 6 refl refl,
        apply_mask-field word 0xffff 0 16 refl refl,
        apply_mask-field word 0x3ffffff 0 26 refl refl,
      )
      (omega arith, omega arith, omega arith)

-- Every register that an instruction names is one of the register file.
pub get_register-lt : (word : ℕ) (r : MipsReg) → get_register (decode word) r < 98
unfolding decode get_register from_cp0_index from_cp1_index countr_zero
get_register-lt word r = ground (
  arith,
  apply_mask-field word 0x3e00000 21 5 refl refl,
  apply_mask-field word 0x1f0000 16 5 refl refl,
  apply_mask-field word 0xf800 11 5 refl refl,
  apply_mask-field word 0x7c0 6 5 refl refl,
)

-- A read of a register that an instruction names does not throw: in a new file it gives 0.
pub read-get_register :
    (word : ℕ) (r : MipsReg)
    → read (new_registers mips_register) (get_register (decode word) r) ≡ some 0
unfolding read new_registers
read-get_register word r = get_elem?-replicate 98 _ 0 (get_register-lt word r)
