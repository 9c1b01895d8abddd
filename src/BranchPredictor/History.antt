-- ===== src/BranchPredictor/History.antt =====
-- The adaptive entry, against the whole history of outcomes: the pattern is the last `depth`
-- outcomes, and the state of a pattern has counted the outcomes that followed it.
use mipt_mips.Prelude.{
  ℕ, zero, suc, ◌+◌, ◌*◌, ◌/◌, ◌%◌, ◌^◌, ◌<◌, ◌≡◌, refl, Bool, true, false, Option, none, some,
  List, [], ◌∷◌, length, get_or, set, ◌==◌, if◌then◌else◌, bit_and, arith, sym, ◌∙◌, length-set,
  get_or-set, get_elem?-eq-get_or, get_or-replicate, length-replicate,
}
use mipt_mips.Prelude.Word.{shl}
use mipt_mips.Prelude.Digits.{mod-pow-suc, pow_pos, bit_and_ones, bit_or_fields}
use native.Mathlib.Nat.{mod-eq_of_lt, mod-one, pow-suc, pow-le-pow_right}
use mipt_mips.Macro.{bitmask}
use mipt_mips.Macro.Laws.{bitmask_lem}
use mipt_mips.BranchPredictor.{
  TwoBit, two_bit_default, two_bit_update, two_bit_is_taken, Adaptive, pattern_update,
  adaptive_init, adaptive_is_taken, adaptive_update,
}

-- The last `depth` outcomes of a history, the newest first, as the digits of a number.
unfoldable pub recent : ℕ → List Bool → ℕ
recent zero h = 0
recent (suc depth) [] = 0
recent (suc depth) (b ∷ h) = (if b then 1 else 0) + 2 * recent depth h

-- What the outcomes that followed `pattern` have made of its state.
unfoldable pub counted : ℕ → ℕ → List Bool → TwoBit
counted depth pattern [] = two_bit_default
counted depth pattern (b ∷ h) =
    if recent depth h == pattern
    then two_bit_update (counted depth pattern h) b
    else counted depth pattern h

pub recent-lt : (depth : ℕ) (h : List Bool) → recent depth h < 2 ^ depth
unfolding recent
recent-lt zero h = omega arith
recent-lt (suc depth) [] = pow_pos (suc depth)
recent-lt (suc depth) (b ∷ h) = ground (arith, recent-lt depth h, pow-suc 2 depth)

recent-nil : (depth : ℕ) → recent depth [] ≡ 0
unfolding recent
recent-nil zero = refl
recent-nil (suc depth) = refl

recent-mod : (depth : ℕ) (h : List Bool) → recent (suc depth) h % 2 ^ depth ≡ recent depth h
unfolding recent
recent-mod zero h = mod-one _
recent-mod (suc depth) [] = mod-eq_of_lt (pow_pos (suc depth))
recent-mod (suc depth) (b ∷ h) =
    let r : ℕ = (if b then 1 else 0) + 2 * recent (suc depth) h in
    let halves : r / 2 ≡ recent (suc depth) h = ground arith in
    let low : r % 2 ≡ (if b then 1 else 0) = ground arith in
    mod-pow-suc r depth ∙ rw (halves, low, recent-mod depth h) (omega arith)

shifted_out :
    (d : ℕ) (h : List Bool)
    → d < 31
    → bit_and (shl 32 (recent (suc d) h) 1) (bitmask 32 (suc d)) ≡ recent d h * 2
shifted_out d h small =
    let r : ℕ = recent (suc d) h in
    let fits : r * 2 < 2 ^ 32 =
      omega (arith, recent-lt (suc d) h, pow-le-pow_right {n = 2} (omega arith) small) in
    let shifted : shl 32 r 1 ≡ r * 2 = mod-eq_of_lt fits in
    let half : r * 2 / 2 ≡ r = omega arith in
    let even : r * 2 % 2 ≡ 0 = omega arith in
    rw (shifted, bitmask_lem 32 (suc d) (omega arith) (omega arith), bit_and_ones (suc d) (r * 2))
      (mod-pow-suc (r * 2) d ∙ rw (half, even, recent-mod d h) (omega arith))

-- The shift register holds the last outcomes.
pub pattern_update-recent :
    (depth : ℕ) (h : List Bool) (b : Bool)
    → 0 < depth
    → depth < 32
    → pattern_update depth (recent depth h) b ≡ recent depth (b ∷ h)
unfolding pattern_update
pattern_update-recent zero h b pos small = absurd (omega arith)
pattern_update-recent (suc d) h true pos small =
    rw (shifted_out d h (omega arith), bit_or_fields 1 (recent d h) 1 (omega arith))
      (unfold recent in omega arith)
pattern_update-recent (suc d) h false pos small =
    rw (shifted_out d h (omega arith)) (unfold recent in omega arith)

-- The entry after a history, the newest outcome first.
unfoldable pub after : ℕ → List Bool → Option Adaptive
after depth [] = some (adaptive_init depth)
after depth (b ∷ h) = elim (after depth h) [ none ↦ none | some e ↦ adaptive_update depth e b ]

record Tracks (depth : ℕ) (e : Adaptive) (h : List Bool) : Type 0 where
  size : length e.state_table ≡ 2 ^ depth
  pattern : e.current_pattern ≡ recent depth h
  states : (p : ℕ) → p < 2 ^ depth → get_or e.state_table p two_bit_default ≡ counted depth p h

module _ (depth : ℕ) (pos : 0 < depth) (small : depth < 32) where
  init-Tracks : Tracks depth (adaptive_init depth) []
  unfolding adaptive_init
  init-Tracks = record {
    size = omega (
      arith,
      length-replicate (bitmask 64 depth + 1) two_bit_default,
      bitmask_lem 64 depth (omega arith) (omega arith),
      pow_pos depth,
    );
    pattern = sym (recent-nil depth);
    states = λ p below. unfold counted in get_or-replicate (bitmask 64 depth + 1) p two_bit_default;
  }

  update-Tracks :
      (e : Adaptive) (h : List Bool) (b : Bool)
      → Tracks depth e h
      → (e' : Adaptive) × (adaptive_update depth e b ≡ some e') × Tracks depth e' (b ∷ h)
  unfolding adaptive_update counted
  update-Tracks e h b t =
      let inside : e.current_pattern < length e.state_table =
        omega (arith, t.size, t.pattern, recent-lt depth h) in
      let state = get_or e.state_table e.current_pattern two_bit_default in
      let found = get_elem?-eq-get_or e.state_table e.current_pattern two_bit_default inside in
      (
        record {
          state_table = set e.state_table e.current_pattern (two_bit_update state b);
          current_pattern = pattern_update depth e.current_pattern b;
        },
        rw (found, adaptive_update),
        record {
          size = length-set _ _ _ ∙ t.size;
          pattern = rw t.pattern (pattern_update-recent depth h b pos small);
          states = λ p below. ground (
            arith,
            get_or-set e.state_table e.current_pattern p (two_bit_update state b) two_bit_default
                inside,
            t.states p below,
            t.pattern,
          );
        },
      )

  after-Tracks : (h : List Bool) → (e : Adaptive) × (after depth h ≡ some e) × Tracks depth e h
  unfolding after
  after-Tracks [] = (adaptive_init depth, refl, init-Tracks)
  after-Tracks (b ∷ h) =
      let (e, reached, t) = after-Tracks h in
      let (e', updated, t') = update-Tracks e h b t in (e', rw (reached, after) updated, t')

  -- No access to the table is out of range, and the prediction after any history is that of the
  -- two-bit counter which has seen the outcomes that followed the last `depth` outcomes.
  pub adaptive_prediction :
      (h : List Bool)
      → (e : Adaptive) × (after depth h ≡ some e)
        × (adaptive_is_taken depth e ≡ some (two_bit_is_taken (counted depth (recent depth h) h)))
  unfolding adaptive_is_taken
  adaptive_prediction h =
      let (e, reached, t) = after-Tracks h in
      let inside : e.current_pattern < length e.state_table =
        omega (arith, t.size, t.pattern, recent-lt depth h) in
      let found = get_elem?-eq-get_or e.state_table e.current_pattern two_bit_default inside in
      let seen = t.states (recent depth h) (recent-lt depth h) in
      (e, reached, rw (found, adaptive_is_taken, t.pattern, seen))
