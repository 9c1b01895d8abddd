-- ===== src/Replacement/Lru/Recency.antt =====
-- Which way `update` picks, after any calls of the policy.
use mipt_mips.Prelude.{
  ℕ, suc, ◌<◌, ◌≡◌, ◌≢◌, ◌∙◌, refl, Bool, true, false, some, List, [], ◌∷◌, ◌++◌, ◌==◌, ltb,
  if◌then◌else◌, arith, zero, ◌+◌, ◌-◌, leb, ◌&&◌, Bool-cases, inl, inr, sym, ap,
}
use mathlib.Core.Path.{subst}
use mathlib.Core.Option.{some-injective}
use mipt_mips.Replacement.Lru.{Lru, insert_ways, remove, last?, init, touch, set_to_erase, update}
use mipt_mips.Replacement.Lru.Invariant.{
  count, count-last?, IsOrder, init-IsOrder, count-remove, touch-IsOrder, set_to_erase-IsOrder,
  update_lem,
}

-- What a call does with a way.
pub data Use : Type 0 where
  used erased : ℕ → Use

-- The policies that calls lead to from a new one, with what the calls did, the latest first.
pub data Reach (ways : ℕ) : Lru → List Use → Type 0 where
  created : Reach ways (init ways) []
  touched :
      {s : Lru} {past : List Use}
      → Reach ways s past
      → (way : ℕ) → way < ways
      → Reach ways (touch s way) (Use.used way ∷ past)
  set_erased :
      {s : Lru} {past : List Use}
      → Reach ways s past
      → (way : ℕ) → way < ways
      → Reach ways (set_to_erase s way) (Use.erased way ∷ past)
  updated :
      {s s' : Lru} {past : List Use} {victim : ℕ}
      → Reach ways s past
      → update s ≡ some (victim, s')
      → Reach ways s' (Use.used victim ∷ past)

-- Of two ways `u` goes before `v`: the last call for either of them was a use of `v` or an erasure of
-- `u`, or there was none and `u` is the lower one.
pub goes_before : List Use → ℕ → ℕ → Bool
goes_before [] u v = ltb u v
goes_before (Use.used way ∷ past) u v =
    if way == v then true else if way == u then false else goes_before past u v
goes_before (Use.erased way ∷ past) u v =
    if way == u then true else if way == v then false else goes_before past u v

-- The place of the first entry of a way; the length where there is none.
abbrev pub index_of : ℕ → List ℕ → ℕ
index_of way [] = 0
index_of way (x ∷ l) = if x == way then 0 else suc (index_of way l)

remove-order :
    (w u v : ℕ) (l : List ℕ)
    → u ≢ w
    → v ≢ w
    → ltb (index_of u (remove w l)) (index_of v (remove w l)) ≡ ltb (index_of u l) (index_of v l)
unfolding remove
remove-order w u v [] p q = refl
remove-order w u v (x ∷ l) p q = ground (arith, remove-order w u v l p q)

-- An entry of the list keeps its place when another way is put at the end.
index_of-append :
    (w v : ℕ) (l : List ℕ) → v ≢ w → 0 < count v l → index_of v (l ++ w ∷ []) ≡ index_of v l
index_of-append w v [] ne some_v = absurd (omega arith)
index_of-append w v (x ∷ l) ne some_v = ground (arith, index_of-append w v l ne)

index_of-last :
    (w v : ℕ) (l : List ℕ)
    → count w l ≡ 0
    → 0 < count v l
    → index_of v (l ++ w ∷ []) < index_of w (l ++ w ∷ [])
index_of-last w v [] gone some_v = absurd (omega arith)
index_of-last w v (x ∷ l) gone some_v = ground (arith, index_of-last w v l)

index_of-insert_ways :
    (left i v : ℕ) (l : List ℕ)
    → index_of v (insert_ways left i l)
      ≡ (if leb i v && ltb v (i + left) then i + left - 1 - v else left + index_of v l)
unfolding insert_ways
index_of-insert_ways zero i v l = ground arith
index_of-insert_ways (suc left) i v l = ground (arith, index_of-insert_ways left (i + 1) v (i ∷ l))

-- The list has the way that goes first at its end.
IsSorted : Lru → List Use → Type 0
IsSorted s past =
    (u v : ℕ)
    → u < s.ways
    → v < s.ways
    → u ≢ v
    → ltb (index_of v s.lru_list) (index_of u s.lru_list) ≡ goes_before past u v

init-IsSorted : (ways : ℕ) → IsSorted (init ways) []
unfolding init IsSorted goes_before
init-IsSorted ways u v hu hv ne =
    ground (arith, index_of-insert_ways ways 0 u [], index_of-insert_ways ways 0 v [])

touch-IsSorted :
    (s : Lru) (past : List Use) (way : ℕ)
    → IsSorted s past
    → IsSorted (touch s way) (Use.used way ∷ past)
unfolding touch IsSorted goes_before
touch-IsSorted s past way sorted u v hu hv ne =
    ground (arith, sorted u v hu hv ne, remove-order way v u s.lru_list)

set_to_erase-IsSorted :
    (s : Lru) (past : List Use) (way : ℕ)
    → IsOrder s
    → way < s.ways
    → IsSorted s past
    → IsSorted (set_to_erase s way) (Use.erased way ∷ past)
unfolding set_to_erase IsSorted goes_before
set_to_erase-IsSorted s past way order inside sorted u v hu hv ne =
    let l : List ℕ = remove way s.lru_list in
    let in_list : (x : ℕ) → x < s.ways → x ≢ way → 0 < count x l =
      λ x hx other. ground (arith, count-remove way x s.lru_list, order x) in
    let gone : count way l ≡ 0 = ground (arith, count-remove way way s.lru_list, order way) in
    let place : ℕ → ℕ = λ x. index_of x (l ++ way ∷ []) in
    elim (Bool-cases (way == u)) [
      | inl same ↦
          let e : way ≡ u = ground (arith, same) in
          let last = index_of-last way v l gone (in_list v hv (λ h. ne (sym e ∙ sym h))) in
          rw same (ground (arith, last, ap place e))
      | inr apart_u ↦
          let other_u : u ≢ way = λ h. ground (arith, apart_u) in
          elim (Bool-cases (way == v)) [
            | inl same ↦
                let e : way ≡ v = ground (arith, same) in
                let last = index_of-last way u l gone (in_list u hu other_u) in
                rw (apart_u, same) (ground (arith, last, ap place e))
            | inr apart_v ↦
                let other_v : v ≢ way = λ h. ground (arith, apart_v) in
                rw
                  (
                    apart_u,
                    apart_v,
                    index_of-append way u l other_u (in_list u hu other_u),
                    index_of-append way v l other_v (in_list v hv other_v),
                    remove-order way v u s.lru_list other_v other_u,
                  )
                  (sorted u v hu hv ne)
          ]
    ]

-- What holds of every policy that calls lead to.
record IsKept (ways : ℕ) (s : Lru) (past : List Use) : Type 0 where
  order : IsOrder s
  size : s.ways ≡ ways
  sorted : IsSorted s past

touch-IsKept :
    {ways : ℕ} (s : Lru) {past : List Use} (way : ℕ)
    → IsKept ways s past
    → way < ways
    → IsKept ways (touch s way) (Use.used way ∷ past)
unfolding touch
touch-IsKept s {past} way h inside = record {
  order = touch-IsOrder s h.order way (omega (arith, h.size));
  size = h.size;
  sorted = touch-IsSorted s past way h.sorted;
}

Reach-IsKept :
    (ways : ℕ) {s : Lru} {past : List Use} → 0 < ways → Reach ways s past → IsKept ways s past
unfolding init set_to_erase
Reach-IsKept ways pos created = record {
  order = init-IsOrder ways;
  size = refl;
  sorted = init-IsSorted ways;
}
Reach-IsKept ways pos (touched {s} r way inside) =
    touch-IsKept s way (Reach-IsKept ways pos r) inside
Reach-IsKept ways pos (set_erased {s} {past} r way inside) =
    let h = Reach-IsKept ways pos r in
    let low : way < s.ways = omega (arith, h.size) in
    record {
      order = set_to_erase-IsOrder s h.order way low;
      size = h.size;
      sorted = set_to_erase-IsSorted s past way h.order low h.sorted;
    }
Reach-IsKept ways pos (updated {s} {s'} {past} {victim} r e) =
    let h = Reach-IsKept ways pos r in
    let (v, inside, last, result) = update_lem s h.order (omega (arith, pos, h.size)) in
    subst (λ x. IsKept ways x.1 (Use.used x.0 ∷ past)) (some-injective _ _ (sym result ∙ e))
      (touch-IsKept s v h (omega (arith, inside, h.size)))

last?-oldest :
    (l : List ℕ) (u : ℕ) {v : ℕ}
    → last? l ≡ some v
    → count v l ≡ 1
    → 0 < count u l
    → u ≢ v
    → index_of u l < index_of v l
unfolding last?
last?-oldest [] u h one some_u ne = absurd (omega arith)
last?-oldest (x ∷ []) u h one some_u ne = absurd (ground arith)
last?-oldest (x ∷ y ∷ l) u {v} h one some_u ne =
    ground (arith, count-last? (y ∷ l) {v = v} h, last?-oldest (y ∷ l) u {v = v} h)

-- After any calls on ways of a new set with a way at least, touches, erasures and updates, `update`
-- returns a way of the set, and touches it. Of that way and any other, the last call for either was a
-- touch or an update of the other or an erasure of that way; or there was none, and that way is the
-- lower.
pub victim_oldest :
    (ways : ℕ) (s : Lru) (past : List Use)
    → 0 < ways
    → Reach ways s past
    → (victim : ℕ) × (victim < ways)
      × (update s ≡ some (victim, touch s victim))
      × ((u : ℕ) → u < ways → u ≢ victim → goes_before past victim u ≡ true)
unfolding IsSorted
victim_oldest ways s past pos r =
    let h = Reach-IsKept ways pos r in
    let (victim, inside, last, result) = update_lem s h.order (omega (arith, pos, h.size)) in
    (
      victim,
      omega (arith, inside, h.size),
      result,
      λ u below other.
          let low : u < s.ways = omega (arith, below, h.size) in
          let oldest =
            last?-oldest s.lru_list u {v = victim} last (ground (arith, h.order victim, inside))
              (ground (arith, h.order u, low)) other in
          sym (h.sorted victim u inside low (λ e. other (sym e))) ∙ ground (arith, oldest),
    )
