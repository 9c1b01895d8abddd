-- ===== src/Memory/Hierarchied/Addresses.antt =====
-- The set, the page and the offset of an address are its digits.
use mipt_mips.Prelude.{
  ℕ, ◌+◌, ◌-◌, ◌*◌, ◌%◌, ◌/◌, ◌^◌, ◌<◌, ◌≤◌, ◌≡◌, sym, ◌∙◌, false, ltb, if◌then◌else◌, bit_and,
  bit_or, arith,
}
use mipt_mips.Prelude.Digits.{
  testbit, testbit_ext, testbit-and, testbit-or, testbit-mod, testbit-shl, testbit-shr,
  testbit-ones, testbit_above, lt_of_testbit,
}
use mipt_mips.Macro.{bitmask}
use mipt_mips.Macro.Laws.{bitmask_lem}
use mipt_mips.Memory.Hierarchied.{Mapping, get_set, get_page, get_offset, get_addr}

-- A mapping whose parts fill addresses of at most 64 bits.
abbrev pub IsMapping : Mapping → Type 0
IsMapping m = (m.set_bits + (m.page_bits + m.offset_bits) ≡ m.addr_bits) × (m.addr_bits ≤ 64)

testbit-field :
    (n at a i : ℕ)
    → n + at ≤ 64
    → testbit (bit_and a (bitmask 64 n * 2 ^ at % 2 ^ 64) / 2 ^ at) i
      ≡ (if ltb i n then testbit a (i + at) else false)
testbit-field n at a i fits =
    let e : bitmask 64 n ≡ 2 ^ n - 1 = bitmask_lem 64 n (omega arith) (omega arith) in
    let mask : ℕ = (2 ^ n - 1) * 2 ^ at in
    rw e (
      ground (
        arith,
        testbit-shr (bit_and a (mask % 2 ^ 64)) at i,
        testbit-and a (mask % 2 ^ 64) (i + at),
        testbit-mod mask 64 (i + at),
        testbit-shl (2 ^ n - 1) at (i + at),
        testbit-ones n i,
      ))

module _ (m : Mapping) (well : IsMapping m) (a i : ℕ) where
  pub testbit-get_set :
      testbit (get_set m a) i
      ≡ (if ltb i m.set_bits then testbit a (i + (m.page_bits + m.offset_bits)) else false)
  unfolding get_set
  testbit-get_set =
      testbit-field m.set_bits (m.page_bits + m.offset_bits) a i (omega (arith, well.0, well.1))

  pub testbit-get_page :
      testbit (get_page m a) i
      ≡ (if ltb i m.page_bits then testbit a (i + m.offset_bits) else false)
  unfolding get_page
  testbit-get_page = testbit-field m.page_bits m.offset_bits a i (omega (arith, well.0, well.1))

  pub testbit-get_offset :
      testbit (get_offset m a) i ≡ (if ltb i m.offset_bits then testbit a i else false)
  unfolding get_offset
  testbit-get_offset =
      let e : bitmask 64 m.offset_bits ≡ 2 ^ m.offset_bits - 1 =
        bitmask_lem 64 m.offset_bits (omega arith) (omega (arith, well.0, well.1)) in
      rw e (ground (arith, testbit-and a (2 ^ m.offset_bits - 1) i, testbit-ones m.offset_bits i))

module _ (m : Mapping) (well : IsMapping m) (a : ℕ) where
  pub get_set-lt : get_set m a < 2 ^ m.set_bits
  get_set-lt =
      lt_of_testbit m.set_bits (get_set m a) λ i h. ground (arith, testbit-get_set m well a i)

  pub get_page-lt : get_page m a < 2 ^ m.page_bits
  get_page-lt =
      lt_of_testbit m.page_bits (get_page m a) λ i h. ground (arith, testbit-get_page m well a i)

  pub get_offset-lt : get_offset m a < 2 ^ m.offset_bits
  get_offset-lt =
      lt_of_testbit m.offset_bits (get_offset m a)
        λ i h. ground (arith, testbit-get_offset m well a i)

-- The address that is made of the parts of an address is that address.
pub get_addr-get_set :
    (m : Mapping) (a : ℕ)
    → IsMapping m
    → a < 2 ^ m.addr_bits
    → get_addr m (get_set m a) (get_page m a) (get_offset m a) ≡ a
unfolding get_addr
get_addr-get_set m a well fits =
    let high : ℕ = m.page_bits + m.offset_bits in
    let s : ℕ = get_set m a in
    let p : ℕ = get_page m a in
    let o : ℕ = get_offset m a in
    testbit_ext _ _ λ i. ground (
      arith,
      well.0,
      well.1,
      testbit-or (bit_or (s * 2 ^ high % 2 ^ 64) (p * 2 ^ m.offset_bits % 2 ^ 64)) o i,
      testbit-or (s * 2 ^ high % 2 ^ 64) (p * 2 ^ m.offset_bits % 2 ^ 64) i,
      testbit-mod (s * 2 ^ high) 64 i,
      testbit-mod (p * 2 ^ m.offset_bits) 64 i,
      testbit-shl s high i,
      testbit-shl p m.offset_bits i,
      testbit-get_set m well a (i - high),
      testbit-get_page m well a (i - m.offset_bits),
      testbit-get_offset m well a i,
      testbit_above a m.addr_bits i fits,
    )

pub address_ext :
    (m : Mapping) (a b : ℕ)
    → IsMapping m
    → a < 2 ^ m.addr_bits
    → b < 2 ^ m.addr_bits
    → get_set m a ≡ get_set m b
    → get_page m a ≡ get_page m b
    → get_offset m a ≡ get_offset m b
    → a ≡ b
address_ext m a b well p q s t u =
    sym (get_addr-get_set m a well p) ∙ rw (s, t, u) (get_addr-get_set m b well q)
