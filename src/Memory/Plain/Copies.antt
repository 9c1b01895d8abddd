-- ===== src/Memory/Plain/Copies.antt =====
-- The plain memory gives back what was written.
use mipt_mips.Prelude.{
  ℕ, zero, suc, ◌+◌, ◌-◌, ◌<◌, ◌≤◌, ◌≡◌, ◌≢◌, ◌↔◌, refl, ap, ◌∙◌, false, ◌&&◌, none, some, List, [],
  ◌∷◌, ltb, leb, if◌then◌else◌, length, set, take, drop, min, get_or, get_or-set, length-set, ◌>>=◌,
  arith, Bool-cases, inl, inr, length-take, length-drop,
}
use mipt_mips.Memory.Plain.{PlainMemory, copy_in, memcpy_host_to_guest, memcpy_guest_to_host}

pub length-copy_in :
    (src : List ℕ) (dst : ℕ) (arena : PlainMemory) → length (copy_in src dst arena) ≡ length arena
unfolding copy_in
length-copy_in [] dst arena = refl
length-copy_in (byte ∷ src) dst arena =
    length-copy_in src (suc dst) (set arena dst byte) ∙ length-set arena dst byte

pub get_or-copy_in :
    (src : List ℕ) (dst i : ℕ) (arena : PlainMemory)
    → dst + length src ≤ length arena
    → get_or (copy_in src dst arena) i 0
      ≡ (if leb dst i && ltb i (dst + length src) then get_or src (i - dst) 0 else get_or arena i 0)
unfolding copy_in
get_or-copy_in [] dst i arena h = ground arith
get_or-copy_in (byte ∷ src) dst i arena h =
    let later =
      get_or-copy_in src (suc dst) i (set arena dst byte)
        (omega (arith, length-set arena dst byte)) in
    elim (Bool-cases (ltb dst i)) [
      | inl above ↦
          let e : i - dst ≡ suc (i - suc dst) = ground arith in
          rw e (ground (arith, later, get_or-set arena dst i byte 0 (omega arith)))
      | inr below ↦
          let e : i - dst ≡ 0 = ground arith in
          rw e (ground (arith, later, get_or-set arena dst i byte 0 (omega arith)))
    ]

-- A copy succeeds exactly when its bytes lie in the arena.
pub memcpy_host_to_guest_iff :
    (dst : ℕ) (src : List ℕ) (arena : PlainMemory)
    → (memcpy_host_to_guest dst src arena ≢ none) ↔ (dst + length src ≤ length arena)
unfolding memcpy_host_to_guest
memcpy_host_to_guest_iff dst src arena = ground arith

-- Two lists with the same length and the same elements.
list_ext :
    (xs ys : List ℕ)
    → length xs ≡ length ys
    → ((i : ℕ) → i < length xs → get_or xs i 0 ≡ get_or ys i 0)
    → xs ≡ ys
list_ext [] [] l h = refl
list_ext [] (y ∷ ys) l h = absurd (omega arith)
list_ext (x ∷ xs) [] l h = absurd (omega arith)
list_ext (x ∷ xs) (y ∷ ys) l h =
    rw (h 0 (omega arith))
      (ap (y ∷◌) (list_ext xs ys (omega arith) (λ i p. h (suc i) (omega arith))))

pub get_or-take : (n i : ℕ) (xs : List ℕ) → i < n → get_or (take n xs) i 0 ≡ get_or xs i 0
get_or-take zero i xs h = absurd (omega arith)
get_or-take (suc n) i [] h = refl
get_or-take (suc n) zero (x ∷ xs) h = refl
get_or-take (suc n) (suc i) (x ∷ xs) h = get_or-take n i xs (omega arith)

pub get_or-drop : (n i : ℕ) (xs : List ℕ) → get_or (drop n xs) i 0 ≡ get_or xs (n + i) 0
get_or-drop zero i xs = let e : 0 + i ≡ i = omega arith in rw e refl
get_or-drop (suc n) i [] = refl
get_or-drop (suc n) i (x ∷ xs) =
    let e : suc n + i ≡ suc (n + i) = omega arith in rw e (get_or-drop n i xs)

-- A copy into the arena succeeds when its bytes lie there, and a later copy out of any part of the
-- arena gives, byte by byte, the new bytes at the places written and the old ones elsewhere.
pub memcpy-round_trip :
    (dst : ℕ) (src : List ℕ) (at size i : ℕ) (arena : PlainMemory)
    → dst + length src ≤ length arena
    → at + size ≤ length arena
    → i < size
    → (memcpy_host_to_guest dst src arena >>= λ written.
        some (get_or (memcpy_guest_to_host at size written) i 0))
      ≡ some (
          if leb dst (at + i) && ltb (at + i) (dst + length src)
          then get_or src (at + i - dst) 0
          else get_or arena (at + i) 0)
unfolding memcpy_host_to_guest memcpy_guest_to_host
memcpy-round_trip dst src at size i arena fits readable inside =
    let a : ltb (length arena) (length src) ≡ false = ground arith in
    let b : ltb (length arena) dst ≡ false = ground arith in
    let c : ltb (length arena - length src) dst ≡ false = ground arith in
    let written : PlainMemory = copy_in src dst arena in
    let valid : ℕ = min size (length written - at) in
    let all : i < valid = omega (arith, length-copy_in src dst arena) in
    rw (a, b, c)
      (ap some (
        get_or-take valid i (drop at written) all
        ∙ get_or-drop at i written
        ∙ get_or-copy_in src dst (at + i) arena fits))

-- In particular the bytes read back are the bytes written.
pub memcpy_guest_to_host-memcpy_host_to_guest :
    (dst : ℕ) (src : List ℕ) (arena : PlainMemory)
    → dst + length src ≤ length arena
    → (memcpy_host_to_guest dst src arena >>= λ written.
        some (memcpy_guest_to_host dst (length src) written))
      ≡ some src
unfolding memcpy_host_to_guest memcpy_guest_to_host
memcpy_guest_to_host-memcpy_host_to_guest dst src arena fits =
    let a : ltb (length arena) (length src) ≡ false = ground arith in
    let b : ltb (length arena) dst ≡ false = ground arith in
    let c : ltb (length arena - length src) dst ≡ false = ground arith in
    let written : PlainMemory = copy_in src dst arena in
    let valid : ℕ = min (length src) (length written - dst) in
    let all : valid ≡ length src = omega (arith, length-copy_in src dst arena) in
    rw (a, b, c)
      (ap some (
        list_ext (take valid (drop dst written)) src
          (omega (
            arith,
            length-take valid (drop dst written),
            length-drop dst written,
            length-copy_in src dst arena,
          ))
          (λ i inside.
            get_or-take valid i (drop dst written)
              (omega (arith, length-take valid (drop dst written)))
            ∙ get_or-drop dst i written
            ∙ get_or-copy_in src dst (dst + i) arena fits
            ∙ (let e : dst + i - dst ≡ i = omega arith in
                rw e (ground (arith, length-take valid (drop dst written)))))))
