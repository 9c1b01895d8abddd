-- ===== src/Riscv/Places.antt =====
-- Which digit of an instruction each digit of an expression over it is.
use mipt_mips.Prelude.{
  ℕ, zero, suc, ◌+◌, ◌-◌, ◌*◌, ◌/◌, ◌^◌, ◌<◌, ◌≤◌, ◌≡◌, refl, Bool, true, false, ◌||◌, ◌&&◌, List,
  [], ◌∷◌, ◌++◌, Option, none, some, ltb, ◌==◌, if◌then◌else◌, bit_and, bit_or, length, leb, arith,
  Bool-cases, inl, inr,
}
use mipt_mips.Prelude.Word.{shl, countr_zero}
use mipt_mips.Prelude.Digits.{
  testbit, testbit-and, testbit-or, testbit-shr, testbit-shl, testbit-mod, testbit_above,
  testbit_ext, testbit-zero,
}
use mipt_mips.Riscv.{apply_mask}

-- The expressions of the immediates.
pub data Expression : Type 0 where
  raw : Expression
  kept : Expression → ℕ → Expression
  masked : Expression → ℕ → Expression
  shifted : Expression → ℕ → Expression
  either : Expression → Expression → Expression

abbrev pub eval : Expression → ℕ → ℕ
eval raw word = word
eval (kept e mask) word = bit_and (eval e word) mask
eval (masked e mask) word = apply_mask (eval e word) mask
eval (shifted e k) word = shl 32 (eval e word) k
eval (either e e') word = bit_or (eval e word) (eval e' word)

-- The digits of the instruction of which digit `i` is the disjunction.
abbrev pub sources : Expression → ℕ → List ℕ
sources raw i = if ltb i 32 then i ∷ [] else []
sources (kept e mask) i = if testbit mask i then sources e i else []
sources (masked e mask) i =
    let k = countr_zero 32 mask in if testbit (mask / 2 ^ k) i then sources e (i + k) else []
sources (shifted e k) i = if ltb i 32 then (if ltb i k then [] else sources e (i - k)) else []
sources (either e e') i = sources e i ++ sources e' i

abbrev pub any_digit : ℕ → List ℕ → Bool
any_digit word [] = false
any_digit word (p ∷ ps) = testbit word p || any_digit word ps

any_digit-append :
    (word : ℕ) (ps qs : List ℕ)
    → any_digit word (ps ++ qs) ≡ (any_digit word ps || any_digit word qs)
any_digit-append word [] qs = refl
any_digit-append word (p ∷ ps) qs = rw (any_digit-append word ps qs) (ground arith)

testbit-shr_and :
    (x mask k i : ℕ)
    → testbit (bit_and x mask / 2 ^ k) i ≡ (testbit x (i + k) && testbit (mask / 2 ^ k) i)
testbit-shr_and x mask k i =
    rw (testbit-shr (bit_and x mask) k i, testbit-and x mask (i + k), testbit-shr mask k i) refl

testbit-apply_mask :
    (x mask i : ℕ)
    → testbit (apply_mask x mask) i
      ≡ (testbit x (i + countr_zero 32 mask) && testbit (mask / 2 ^ countr_zero 32 mask) i)
unfolding apply_mask
testbit-apply_mask x mask i = testbit-shr_and x mask (countr_zero 32 mask) i

only_if :
    (word : ℕ) (b : Bool) (ps : List ℕ)
    → (any_digit word ps && b) ≡ any_digit word (if b then ps else [])
only_if word b ps = ground arith

within :
    (word : ℕ) (b b' : Bool) (ps : List ℕ)
    → (if b then (if b' then false else any_digit word ps) else false)
      ≡ any_digit word (if b then (if b' then [] else ps) else [])
within word b b' ps = ground arith

pub testbit-eval :
    (e : Expression) (word : ℕ)
    → word < 2 ^ 32
    → (i : ℕ) → testbit (eval e word) i ≡ any_digit word (sources e i)
testbit-eval raw word small i = elim (Bool-cases (ltb i 32)) [
  | inl low ↦ rw low (ground arith)
  | inr high ↦ rw (high, testbit_above word 32 i small (ground arith)) refl
]
testbit-eval (kept e mask) word small i =
    rw (testbit-and (eval e word) mask i, testbit-eval e word small i)
      (only_if word (testbit mask i) (sources e i))
testbit-eval (masked e mask) word small i =
    let k : ℕ = countr_zero 32 mask in
    rw (testbit-apply_mask (eval e word) mask i, testbit-eval e word small (i + k))
      (only_if word (testbit (mask / 2 ^ k) i) (sources e (i + k)))
testbit-eval (shifted e k) word small i =
    rw
      (
        testbit-mod (eval e word * 2 ^ k) 32 i,
        testbit-shl (eval e word) k i,
        testbit-eval e word small (i - k),
      )
      (within word (ltb i 32) (ltb i k) (sources e (i - k)))
testbit-eval (either e e') word small i =
    rw
      (
        testbit-or (eval e word) (eval e' word) i,
        testbit-eval e word small i,
        testbit-eval e' word small i,
        any_digit-append word (sources e i) (sources e' i),
      )
      refl

-- A word given by the place of each of its digits, the lowest first.
abbrev pub gather : List (Option ℕ) → ℕ → ℕ
gather [] word = 0
gather (none ∷ ps) word = 2 * gather ps word
gather (some p ∷ ps) word = (if testbit word p then 1 else 0) + 2 * gather ps word

abbrev place : List (Option ℕ) → ℕ → List ℕ
place [] i = []
place (none ∷ ps) zero = []
place (some p ∷ ps) zero = p ∷ []
place (p ∷ ps) (suc i) = place ps i

testbit-gather :
    (ps : List (Option ℕ)) (word i : ℕ) → testbit (gather ps word) i ≡ any_digit word (place ps i)
unfolding testbit
testbit-gather [] word i = testbit-zero i
testbit-gather (none ∷ ps) word zero = ground arith
testbit-gather (none ∷ ps) word (suc i) =
    let half : 2 * gather ps word / 2 ≡ gather ps word = omega arith in
    rw half (testbit-gather ps word i)
testbit-gather (some p ∷ ps) word zero = ground arith
testbit-gather (some p ∷ ps) word (suc i) =
    let half : ((if testbit word p then 1 else 0) + 2 * gather ps word) / 2 ≡ gather ps word =
      ground arith in
    rw half (testbit-gather ps word i)

abbrev same_list : List ℕ → List ℕ → Bool
same_list [] [] = true
same_list (x ∷ xs) (y ∷ ys) = (x == y) && same_list xs ys
same_list _ _ = false

same_list_sound : (xs ys : List ℕ) → same_list xs ys ≡ true → xs ≡ ys
same_list_sound [] [] h = refl
same_list_sound (x ∷ xs) (y ∷ ys) h =
    let e : x ≡ y = ground arith in
    let rest : same_list xs ys ≡ true = ground arith in rw (e, same_list_sound xs ys rest) refl
same_list_sound [] (y ∷ ys) h = absurd (ground arith)
same_list_sound (x ∷ xs) [] h = absurd (ground arith)

-- The digits below `n` of an expression are those of the places.
abbrev pub agree : Expression → List (Option ℕ) → ℕ → Bool
agree e ps zero = true
agree e ps (suc n) = let rest = agree e ps n in same_list (sources e n) (place ps n) && rest

agree_sound :
    (e : Expression) (ps : List (Option ℕ)) (n : ℕ)
    → agree e ps n ≡ true
    → (i : ℕ) → i < n
    → sources e i ≡ place ps i
agree_sound e ps zero h i below = absurd (omega arith)
agree_sound e ps (suc n) h i below =
    let here : same_list (sources e n) (place ps n) ≡ true = ground arith in
    let before : agree e ps n ≡ true = ground arith in
    elim (Bool-cases (i == n)) [
      | inl last ↦ let e' : i ≡ n = ground arith in rw e' (same_list_sound _ _ here)
      | inr other ↦ agree_sound e ps n before i (ground arith)
    ]

eval_above :
    (e : Expression) (word : ℕ) → word < 2 ^ 32 → (i : ℕ) → 32 ≤ i → testbit (eval e word) i ≡ false
eval_above raw word small i above = testbit_above word 32 i small above
eval_above (kept e mask) word small i above =
    rw (testbit-and (eval e word) mask i, eval_above e word small i above) refl
eval_above (masked e mask) word small i above =
    rw
      (
        testbit-apply_mask (eval e word) mask i,
        eval_above e word small (i + countr_zero 32 mask) (omega arith),
      )
      refl
eval_above (shifted e k) word small i above = ground (arith, testbit-mod (eval e word * 2 ^ k) 32 i)
eval_above (either e e') word small i above =
    rw
      (
        testbit-or (eval e word) (eval e' word) i,
        eval_above e word small i above,
        eval_above e' word small i above,
      )
      refl

-- An expression whose digits were compared with the places gives the word gathered from them.
pub eval-eq-gather :
    (e : Expression) (ps : List (Option ℕ)) (word : ℕ)
    → word < 2 ^ 32
    → agree e ps 32 ≡ true
    → leb (length ps) 32 ≡ true
    → eval e word ≡ gather ps word
eval-eq-gather e ps word small same short = testbit_ext _ _ λ i. elim (Bool-cases (ltb i 32)) [
  | inl low ↦
      rw
        (
          testbit-eval e word small i,
          testbit-gather ps word i,
          agree_sound e ps 32 same i (ground arith),
        )
        refl
  | inr high ↦
      rw
        (
          eval_above e word small i (ground arith),
          testbit-gather ps word i,
          place_past ps i (ground arith),
        )
        refl
]
  where
    place_past : (qs : List (Option ℕ)) (j : ℕ) → length qs ≤ j → place qs j ≡ []
    place_past [] j h = refl
    place_past (q ∷ qs) zero h = absurd (omega arith)
    place_past (none ∷ qs) (suc j) h = place_past qs j (omega arith)
    place_past (some q ∷ qs) (suc j) h = place_past qs j (omega arith)
