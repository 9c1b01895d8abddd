-- ===== src/Alu/Addresses.antt =====
-- Addresses and masks of loads and stores.
use mipt_mips.Prelude.{ℕ, ◌+◌, ◌-◌, ◌*◌, ◌%◌, ◌==◌, if◌then◌else◌}
use mipt_mips.Prelude.Word.{narrow, add_word, sub_word, shl}
use mipt_mips.Macro.{bitmask}
use mipt_mips.Operation.{Datapath}
use mipt_mips.Trap.{Trap}

module _ (w : ℕ) where
  -- `v_src[0] + v_imm` in the register type, and then as an address.
  unfoldable pub addr : Datapath → Datapath
  addr instr = record instr { mem_addr = narrow 64 (add_word w instr.v_src0 instr.v_imm) }

  unfoldable pub load_addr : Datapath → Datapath
  unfolding addr
  load_addr instr = addr instr

  unfoldable pub store_addr : Datapath → Datapath
  unfolding addr
  store_addr instr = record (addr instr) { mask = bitmask w (instr.mem_size * 8) }

  unfoldable pub load_addr_aligned : Datapath → Datapath
  unfolding load_addr
  load_addr_aligned instr =
      let i = load_addr instr in
      if i.mem_addr % i.mem_size == 0 then i else record i { trap = Trap.unaligned_load }

  -- The word from the address to its end.
  unfoldable pub right_mask : ℕ → ℕ
  right_mask mem_addr = bitmask 32 ((4 - mem_addr % 4) * 8)

  unfoldable pub left_mask : ℕ → ℕ
  left_mask mem_addr = shl w (bitmask w ((1 + mem_addr % 4) * 8)) ((3 - mem_addr % 4) * 8)

  unfoldable pub load_addr_right32 : Datapath → Datapath
  unfolding load_addr right_mask
  load_addr_right32 instr = let i = load_addr instr in record i { mask = right_mask i.mem_addr }

  unfoldable pub load_addr_left32 : Datapath → Datapath
  unfolding load_addr left_mask
  load_addr_left32 instr =
      let i = load_addr instr in
      record i { mask = left_mask i.mem_addr; mem_addr = sub_word 64 i.mem_addr 3 }

  unfoldable pub store_addr_aligned : Datapath → Datapath
  unfolding store_addr
  store_addr_aligned instr =
      let i = store_addr instr in
      if i.mem_addr % i.mem_size == 0 then i else record i { trap = Trap.unaligned_store }

  unfoldable pub store_addr_right32 : Datapath → Datapath
  unfolding store_addr right_mask
  store_addr_right32 instr = let i = store_addr instr in record i { mask = right_mask i.mem_addr }

  unfoldable pub store_addr_left32 : Datapath → Datapath
  unfolding store_addr left_mask
  store_addr_left32 instr =
      let i = store_addr instr in
      record i { mask = left_mask i.mem_addr; mem_addr = sub_word 64 i.mem_addr 3 }
