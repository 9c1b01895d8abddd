-- ===== src/RegisterFile/Accumulate.antt =====
-- The accumulating multiplications of MIPS: HI and LO as one number of 64 bits.
use mipt_mips.Prelude.{
  ℕ, ◌+◌, ◌-◌, ◌*◌, ◌^◌, ◌<◌, ◌≤◌, ◌%◌, ◌≡◌, ap, ◌∙◌, Bool, true, false, some, ltb, if◌then◌else◌,
  set, length, ◌>>=◌, arith, length-set, get_or, get_or-set,
}
use mipt_mips.Macro.{all_ones}
use mipt_mips.Macro.Laws.{all_ones_lem}
use mipt_mips.Operation.{Datapath, Accumulation, get_accumulation_type}
use mipt_mips.RegisterFile.{mips_register, Registers, write_accumulated, write_dst}
use mipt_mips.RegisterFile.Carry.{write_lo_plus, write_lo_minus, write_hi_plus, write_hi_minus}

-- The word of 64 bits in HI and LO.
abbrev pub hi_lo : Registers → ℕ
hi_lo rf = get_or rf 32 0 % 2 ^ 32 * 2 ^ 32 + get_or rf 33 0 % 2 ^ 32

carry_sum :
    (H L h l : ℕ)
    → H < 2 ^ 32
    → L < 2 ^ 32
    → h < 2 ^ 32
    → l < 2 ^ 32
    → ((if ltb (2 ^ 32 - 1 - L) l then (H + 1) % 2 ^ 32 else H) + h) % 2 ^ 32 * 2 ^ 32
        + (L + l) % 2 ^ 32
      ≡ (H * 2 ^ 32 + L + (h * 2 ^ 32 + l)) % 2 ^ 64
carry_sum H L h l p q r s = ground arith

borrow_difference :
    (H L h l : ℕ)
    → H < 2 ^ 32
    → L < 2 ^ 32
    → h < 2 ^ 32
    → l < 2 ^ 32
    → ((if ltb L l then (H + 2 ^ 32 - 1) % 2 ^ 32 else H) + 2 ^ 32 - h) % 2 ^ 32 * 2 ^ 32
        + (L + 2 ^ 32 - l) % 2 ^ 32
      ≡ (H * 2 ^ 32 + L + 2 ^ 64 - (h * 2 ^ 32 + l)) % 2 ^ 64
borrow_difference H L h l p q r s = ground arith

-- Both registers after the two writes.
hi_lo-set :
    (rf : Registers) (b : Bool) (x low high : ℕ)
    → 33 < length rf
    → x < 2 ^ 32
    → low < 2 ^ 32
    → high < 2 ^ 32
    → hi_lo (set (set (if b then set rf 32 x else rf) 33 low) 32 high) ≡ high * 2 ^ 32 + low
hi_lo-set rf true x low high h p q r = ground (
  arith,
  length-set rf 32 x,
  length-set (set rf 32 x) 33 low,
  get_or-set (set (set rf 32 x) 33 low) 32 32 high 0,
  get_or-set (set (set rf 32 x) 33 low) 32 33 high 0,
  get_or-set (set rf 32 x) 33 33 low 0,
)
hi_lo-set rf false x low high h p q r = ground (
  arith,
  length-set rf 33 low,
  get_or-set (set rf 33 low) 32 32 high 0,
  get_or-set (set rf 33 low) 32 33 high 0,
  get_or-set rf 33 33 low 0,
)

high_once :
    (rf : Registers) (b : Bool) (x low : ℕ)
    → 33 < length rf
    → get_or (set (if b then set rf 32 (x % 2 ^ 32) else rf) 33 low) 32 0 % 2 ^ 32
      ≡ (if b then x % 2 ^ 32 else get_or rf 32 0 % 2 ^ 32)
high_once rf true x low h = ground (
  arith,
  length-set rf 32 (x % 2 ^ 32),
  get_or-set (set rf 32 (x % 2 ^ 32)) 33 32 low 0,
  get_or-set rf 32 32 (x % 2 ^ 32) 0,
)
high_once rf false x low h = ground (arith, get_or-set rf 33 32 low 0)

length_once :
    (rf : Registers) (b : Bool) (x low : ℕ)
    → length (set (if b then set rf 32 x else rf) 33 low) ≡ length rf
length_once rf true x low = length-set (set rf 32 x) 33 low ∙ length-set rf 32 x
length_once rf false x low = length-set rf 33 low

write_dst_lem :
    (w : ℕ) (rf once twice : Registers) (instr : Datapath) (a : Accumulation)
    → 0 < w
    → instr.mask ≡ 2 ^ w - 1
    → get_accumulation_type instr.operation ≡ a
    → write_accumulated w mips_register rf 33 instr.v_dst0 (2 ^ w - 1) a ≡ some once
    → write_accumulated w mips_register once 32 instr.v_dst1 (2 ^ w - 1) a ≡ some twice
    → write_dst w mips_register rf 33 32 instr ≡ some twice
unfolding write_dst
write_dst_lem w rf once twice instr a pos full kind first second =
    let kind_of : Accumulation = get_accumulation_type instr.operation in
    let first' : write_accumulated w mips_register rf 33 instr.v_dst0 instr.mask
          (get_accumulation_type instr.operation)
        ≡ some once =
      ap (λ m. write_accumulated w mips_register rf 33 instr.v_dst0 m kind_of) full
      ∙ ap (write_accumulated w mips_register rf 33 instr.v_dst0 (2 ^ w - 1)) kind
      ∙ first in
    let second' : write_accumulated w mips_register once 32 instr.v_dst1 (all_ones w)
          (get_accumulation_type instr.operation)
        ≡ some twice =
      ap (λ m. write_accumulated w mips_register once 32 instr.v_dst1 m kind_of)
        (all_ones_lem w pos)
      ∙ ap (write_accumulated w mips_register once 32 instr.v_dst1 (2 ^ w - 1)) kind
      ∙ second in
    ap
      (λ o. o >>= λ written.
        write_accumulated w mips_register written 32 instr.v_dst1 (all_ones w) kind_of)
      first'
    ∙ second'

-- With LO and HI as its two destinations and the full mask, an accumulating instruction adds the
-- low 32 bits of both its results to the number of 64 bits in HI and LO, modulo 2 ^ 64.
pub multiply_add :
    (w : ℕ) (rf : Registers) (instr : Datapath)
    → 32 ≤ w
    → 33 < length rf
    → instr.mask ≡ 2 ^ w - 1
    → get_accumulation_type instr.operation ≡ Accumulation.plus
    → (write_dst w mips_register rf 33 32 instr >>= λ written. some (hi_lo written))
      ≡ some ((hi_lo rf + (instr.v_dst1 % 2 ^ 32 * 2 ^ 32 + instr.v_dst0 % 2 ^ 32)) % 2 ^ 64)
multiply_add w rf instr wide inside full plus =
    let L : ℕ = get_or rf 33 0 % 2 ^ 32 in
    let H : ℕ = get_or rf 32 0 % 2 ^ 32 in
    let l : ℕ = instr.v_dst0 % 2 ^ 32 in
    let h : ℕ = instr.v_dst1 % 2 ^ 32 in
    let raised : Registers = if ltb (2 ^ 32 - 1 - L) l then set rf 32 ((H + 1) % 2 ^ 32) else rf in
    let once : Registers = set raised 33 ((L + l) % 2 ^ 32) in
    let low_done = write_lo_plus w rf instr.v_dst0 wide inside in
    let high_done = write_hi_plus w once instr.v_dst1 wide (
      omega
        (arith, length_once rf (ltb (2 ^ 32 - 1 - L) l) ((H + 1) % 2 ^ 32) ((L + l) % 2 ^ 32))) in
    let high : ℕ = get_or once 32 0 % 2 ^ 32 in
    ap (λ o. o >>= λ written. some (hi_lo written))
      (write_dst_lem w rf once _ instr Accumulation.plus (omega arith) full plus low_done high_done)
    ∙ ap some (
        hi_lo-set rf (ltb (2 ^ 32 - 1 - L) l) ((H + 1) % 2 ^ 32) ((L + l) % 2 ^ 32)
          ((high + h) % 2 ^ 32) inside (omega arith) (omega arith) (omega arith)
        ∙ ap (λ (t : ℕ). (t + h) % 2 ^ 32 * 2 ^ 32 + (L + l) % 2 ^ 32)
            (high_once rf (ltb (2 ^ 32 - 1 - L) l) (H + 1) ((L + l) % 2 ^ 32) inside)
        ∙ carry_sum H L h l (omega arith) (omega arith) (omega arith) (omega arith))

-- The same for a subtracting instruction.
pub multiply_subtract :
    (w : ℕ) (rf : Registers) (instr : Datapath)
    → 32 ≤ w
    → 33 < length rf
    → instr.mask ≡ 2 ^ w - 1
    → get_accumulation_type instr.operation ≡ Accumulation.minus
    → (write_dst w mips_register rf 33 32 instr >>= λ written. some (hi_lo written))
      ≡ some
          ((hi_lo rf + 2 ^ 64 - (instr.v_dst1 % 2 ^ 32 * 2 ^ 32 + instr.v_dst0 % 2 ^ 32)) % 2 ^ 64)
multiply_subtract w rf instr wide inside full minus =
    let L : ℕ = get_or rf 33 0 % 2 ^ 32 in
    let H : ℕ = get_or rf 32 0 % 2 ^ 32 in
    let l : ℕ = instr.v_dst0 % 2 ^ 32 in
    let h : ℕ = instr.v_dst1 % 2 ^ 32 in
    let low : ℕ = (L + 2 ^ 32 - l) % 2 ^ 32 in
    let lowered : Registers = if ltb L l then set rf 32 ((H + 2 ^ 32 - 1) % 2 ^ 32) else rf in
    let once : Registers = set lowered 33 low in
    let low_done = write_lo_minus w rf instr.v_dst0 wide inside in
    let high_done =
      write_hi_minus w once instr.v_dst1 wide
        (omega (arith, length_once rf (ltb L l) ((H + 2 ^ 32 - 1) % 2 ^ 32) low)) in
    let high : ℕ = get_or once 32 0 % 2 ^ 32 in
    ap (λ o. o >>= λ written. some (hi_lo written))
      (write_dst_lem w rf once _ instr Accumulation.minus (omega arith) full minus low_done
        high_done)
    ∙ ap some (
        hi_lo-set rf (ltb L l) ((H + 2 ^ 32 - 1) % 2 ^ 32) low ((high + 2 ^ 32 - h) % 2 ^ 32) inside
          (omega arith) (omega arith) (omega arith)
        ∙ ap (λ (t : ℕ). (t + 2 ^ 32 - h) % 2 ^ 32 * 2 ^ 32 + low)
            (high_once rf (ltb L l) (H + 2 ^ 32 - 1) low inside)
        ∙ borrow_difference H L h l (omega arith) (omega arith) (omega arith) (omega arith))
