-- ===== src/Tests/Caches.antt =====
-- The tag arrays, with functions for the hash map.
use mipt_mips.Prelude.{
  ℕ, ◌-◌, ◌^◌, ◌<◌, ◌≡◌, refl, Option, none, some, [], ◌==◌, if◌then◌else◌, arith,
}
use mipt_mips.TagArray.{IsKey, HashMap, Policy, new_set, read_no_touch, write}
use mipt_mips.TagArray.Consistency.{IsConsistent, new_set-IsConsistent, write-IsConsistent}
use mipt_mips.TagArray.Geometry.{Geometry}
use mipt_mips.TagArray.Infinite.{InfiniteTags}
use mipt_mips.TagArray.LruPolicy.{lru_policy}

abbrev pub functions : HashMap
functions = record {
  Map = ℕ → Option ℕ;
  fresh = λ _. none;
  find = λ m k. m k;
  emplace = λ m k v j. if k == j then some v else m j;
  erase = λ m k j. if k == j then none else m j;
  find-fresh = λ k. refl;
  find-emplace = λ m k v j p q r. refl;
  find-erase = λ m k j p q. refl;
}

abbrev pub four_ways : Policy 4
four_ways = lru_policy 4 (omega arith)

pub forty_two-IsKey : IsKey 42
forty_two-IsKey = (λ e. ground arith, λ e. ground arith)

pub forty_three-IsKey : IsKey 43
forty_three-IsKey = (λ e. ground arith, λ e. ground arith)

write-IsConsistent_example :
    IsConsistent functions four_ways (write functions four_ways (new_set functions four_ways) 42).0
    × (((write functions four_ways (new_set functions four_ways) 42).1 < 4)
        × (read_no_touch functions four_ways
              (write functions four_ways (new_set functions four_ways) 42).0
              42
            ≡ some (write functions four_ways (new_set functions four_ways) 42).1))
unfolding read_no_touch new_set
write-IsConsistent_example =
    write-IsConsistent functions four_ways (new_set functions four_ways) 42
      (new_set-IsConsistent functions four_ways) forty_two-IsKey refl

-- 64 lines of 16 bytes in 16 sets of 4 ways.
abbrev small_cache : Geometry
small_cache = record { line_bits = 4; sets = 16; set_bits = 8; addr_mask = 2 ^ 32 - 1 }

abbrev no_lines : InfiniteTags functions
no_lines = record { tags = []; lookup_helper = λ _. none }
