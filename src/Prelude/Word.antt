-- ===== src/Prelude/Word.antt =====
-- The operators of C++ on an unsigned type of `w` bits, over the numbers below 2 ^ w. A shift by
-- `w` or more is undefined in C++; here it leaves 0.
use mipt_mips.Prelude.Tests.{◌==◌, if◌then◌else◌}
use Prim.Native.Nat.{ℕ, zero, suc, ◌+◌, ◌-◌, ◌*◌, ◌/◌, ◌%◌, ◌^◌}

-- `narrow_cast` to `w` bits.
abbrev pub narrow : ℕ → ℕ → ℕ
narrow w a = a % 2 ^ w

-- `a + b`
abbrev pub add_word : ℕ → ℕ → ℕ → ℕ
add_word w a b = (a + b) % 2 ^ w

-- `a - b`
abbrev pub sub_word : ℕ → ℕ → ℕ → ℕ
sub_word w a b = (a + 2 ^ w - b) % 2 ^ w

-- `~a`
abbrev pub not_word : ℕ → ℕ → ℕ
not_word w a = 2 ^ w - 1 - a

-- `a << k`
abbrev pub shl : ℕ → ℕ → ℕ → ℕ
shl w a k = a * 2 ^ k % 2 ^ w

-- `a >> k`
abbrev pub shr : ℕ → ℕ → ℕ
shr a k = a / 2 ^ k

-- `std::countr_zero` of a word of as many bits as there is fuel.
unfoldable pub countr_zero : ℕ → ℕ → ℕ
countr_zero zero n = 0
countr_zero (suc w) n = let rest = countr_zero w (n / 2) in if n % 2 == 1 then 0 else suc rest
