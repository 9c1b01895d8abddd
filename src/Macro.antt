-- ===== src/Macro.antt =====
-- infra/macro.h: masks, sign extension and packing, over words of `w` bits.
pub mod Laws
use mipt_mips.Prelude.{
  ℕ, zero, suc, ◌+◌, ◌-◌, ◌*◌, ◌/◌, ◌%◌, ◌^◌, Bool, List, [], ◌∷◌, ◌==◌, ltb, if◌then◌else◌,
  bit_and, bit_or, bit_xor,
}
use mipt_mips.Prelude.Word.{narrow, sub_word, not_word, shl, shr}

-- `msb_set<T>()`
unfoldable pub msb_set : ℕ → ℕ
msb_set w = shl w 1 (w - 1)

-- `all_ones<T>()`
unfoldable pub all_ones : ℕ → ℕ
all_ones w = bit_or (sub_word w (msb_set w) 1) (msb_set w)

unfoldable pub ones_ls : ℕ → ℕ → ℕ → ℕ
ones_ls w value shamt = not_word w (shl w (not_word w value) shamt)

unfoldable pub ones_rs : ℕ → ℕ → ℕ → ℕ
ones_rs w value shamt = not_word w (shr (not_word w value) shamt)

-- A word with the lowest `onecount` bits set.
unfoldable pub bitmask : ℕ → ℕ → ℕ
bitmask w onecount = if onecount == w then all_ones w else ones_ls w 0 onecount

unfoldable pub sign_extension : ℕ → ℕ → ℕ → ℕ
sign_extension w value bits =
    if ltb bits w
    then (let msb = if bits == 0 then 0 else shl w 1 (bits - 1) in
        sub_word w (bit_xor (bit_and value (bitmask w bits)) msb) msb)
    else value

-- The loop of `unpack_to`: `count` values of `to` bits, the lowest first, out of a word of `from`.
unfoldable pub unpack_from_shift : ℕ → ℕ → ℕ → ℕ → ℕ → List ℕ
unpack_from_shift from to zero shift src = []
unpack_from_shift from to (suc count) shift src =
    narrow to (bit_and (shr src shift) (bitmask from to))
    ∷ unpack_from_shift from to count (shift + to) src

unfoldable pub unpack_to : ℕ → ℕ → ℕ → List ℕ
unpack_to from to src = unpack_from_shift from to (from / to) 0 src

-- The loop of `pack_from`, into a word of `to` bits.
unfoldable pub pack_from_shift : ℕ → ℕ → ℕ → ℕ → List ℕ → ℕ
pack_from_shift to from shift result [] = result
pack_from_shift to from shift result (value ∷ src) =
    pack_from_shift to from (shift + from) (bit_or result (shl to value shift)) src

unfoldable pub pack_from : ℕ → ℕ → List ℕ → ℕ
pack_from to from src = pack_from_shift to from 0 0 src

unfoldable pub trap_vector_address : ℕ → ℕ → ℕ
trap_vector_address w value = bit_and (shr value 2) (not_word w (bitmask w 3))
