-- ===== src/RegisterFile/Access.antt =====
-- What a read sees after a write.
use mipt_mips.Prelude.{
  ℕ, suc, ◌<◌, ◌≡◌, sym, ap, ◌∙◌, false, ◌&&◌, not, none, some, ◌==◌, if◌then◌else◌, get_elem?, set,
  length, bit_and, bit_or, ◌>>=◌, arith, get_elem?-set_self, get_elem?-set_ne, get_or,
  get_elem?-eq-get_or, Bool-cases, inl, inr,
}
use mipt_mips.Prelude.Word.{not_word}
use mipt_mips.RegisterFile.{RegisterClass, Registers, read, put, write, write_masked, apply_mask}

pub put-some :
    (rf : Registers) (num val : ℕ) → num < length rf → put rf num val ≡ some (set rf num val)
unfolding put
put-some rf num val h = ground arith

pub read-set :
    (rf : Registers) (num val other : ℕ)
    → num < length rf
    → read (set rf num val) other ≡ (if num == other then some val else read rf other)
unfolding read
read-set rf num val other h = elim (Bool-cases (num == other)) [
  | inl same ↦ rw same (
      let e : num ≡ other = ground arith in
      ap (get_elem? (set rf num val)) (sym e) ∙ get_elem?-set_self rf num val h)
  | inr apart ↦ rw apart (get_elem?-set_ne rf {i = num} {j = other} val (λ e. ground arith))
]

pub write-set :
    (c : RegisterClass) (rf : Registers) (num v : ℕ)
    → c.is_zero num ≡ false
    → num < length rf
    → write c rf num v ≡ some (set rf num v)
unfolding write
write-set c rf num v other h = rw other (put-some rf num v h)

-- After a write to a register of the file, that register holds the value unless it is the zero
-- register, and all others hold what they held.
pub read-write :
    (c : RegisterClass) (rf : Registers) (num val other : ℕ)
    → num < length rf
    → (write c rf num val >>= λ written. read written other)
      ≡ (if num == other && not (c.is_zero num) then some val else read rf other)
unfolding write
read-write c rf num val other h = elim (Bool-cases (c.is_zero num)) [
  | inl z ↦ rw z (ground arith)
  | inr z ↦ rw (z, put-some rf num val h) (read-set rf num val other h ∙ ground arith)
]

-- A masked write keeps the bits outside of the mask.
pub read-write_masked :
    (w : ℕ) (c : RegisterClass) (rf : Registers) (num val mask other : ℕ)
    → num < length rf
    → (write_masked w c rf num val mask >>= λ written. read written other) ≡ (
        if num == other && not (c.is_zero num)
        then some (bit_or (bit_and (get_or rf num 0) (not_word w mask)) (bit_and val mask))
        else read rf other)
unfolding write_masked apply_mask read
read-write_masked w c rf num val mask other h =
    rw (get_elem?-eq-get_or rf num 0 h) (read-write c rf num _ other h)

-- A write past the last register, of another register than zero, is the exception.
pub write-none :
    (c : RegisterClass) (rf : Registers) (num val : ℕ)
    → length rf < suc num
    → c.is_zero num ≡ false
    → write c rf num val ≡ none
unfolding write put
write-none c rf num val h z = rw z (ground arith)
