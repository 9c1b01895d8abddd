-- ===== src/Mips/Version.antt =====
-- mips/mips_version.h: the versions of MIPS and the masks of the versions that have an instruction.
use mipt_mips.Prelude.{ℕ, Bool, not, ◌==◌, bit_and, bit_or}
use mipt_mips.Prelude.Word.{shl, shr}

pub data MipsVersion : Type 0 where
  i ii iii iv v v32 v64 mars mars64 : MipsVersion

unfoldable pub number : MipsVersion → ℕ
number MipsVersion.i = 0
number MipsVersion.ii = 1
number MipsVersion.iii = 2
number MipsVersion.iv = 3
number MipsVersion.v = 4
number MipsVersion.v32 = 5
number MipsVersion.v64 = 6
number MipsVersion.mars = 7
number MipsVersion.mars64 = 8

unfoldable pub is_supported : ℕ → MipsVersion → Bool
unfolding number
is_supported mask version = not (bit_and (shr mask (number version)) 1 == 0)

-- The operators `|`, with a version and with a mask.
unfoldable pub add_version : ℕ → MipsVersion → ℕ
unfolding number
add_version mask rhs = bit_or mask (shl 64 1 (number rhs))

unfoldable pub join : ℕ → ℕ → ℕ
join mask rhs = bit_or mask rhs

unfoldable pub mips_64 : ℕ
unfolding add_version
mips_64 = add_version (add_version 0 MipsVersion.v64) MipsVersion.mars64

unfoldable pub mips_32 : ℕ
unfolding mips_64 add_version
mips_32 = add_version (add_version mips_64 MipsVersion.v32) MipsVersion.mars

unfoldable pub mips_v : ℕ
unfolding mips_64 add_version
mips_v = add_version mips_64 MipsVersion.v

unfoldable pub mips_iv : ℕ
unfolding mips_v add_version
mips_iv = add_version mips_v MipsVersion.iv

unfoldable pub mips_iii : ℕ
unfolding mips_iv add_version
mips_iii = add_version mips_iv MipsVersion.iii

unfoldable pub mips_ii : ℕ
unfolding mips_iii mips_32 join add_version
mips_ii = add_version (join mips_iii mips_32) MipsVersion.ii

unfoldable pub mips_i : ℕ
unfolding mips_ii add_version
mips_i = add_version mips_ii MipsVersion.i
