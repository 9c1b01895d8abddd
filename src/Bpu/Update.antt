-- ===== src/Bpu/Update.antt =====
-- What the unit predicts after it was trained.
use mipt_mips.Prelude.{
  ℕ, ◌≡◌, refl, ap, ◌∙◌, true, Option, none, some, ◌==◌, if◌then◌else◌, arith, Option-cases, inl,
  inr,
}
use mipt_mips.Prelude.Word.{add_word}
use mipt_mips.TagArray.{IsKey, HashMap, Policy, CacheSet, read_no_touch, read, write}
use mipt_mips.TagArray.Consistency.{IsConsistent, write-IsConsistent, new_set-IsConsistent}
use mipt_mips.TagArray.Geometry.{Geometry}
use mipt_mips.TagArray.Geometry as Geometry
use mipt_mips.Bpu.{
  EntryClass, BpInterface, Bp, new_bp, find, is_taken, is_hit, get_target, train, update, update_at,
  is_way_taken, with_set, allocate, update, update_found,
}

module _ (h : HashMap) {ways : ℕ} (p : Policy ways) (e : EntryClass) (g : Geometry) where
  -- Every set of the tag array is consistent.
  abbrev pub IsTagged : Bp h p e g → Type 0
  IsTagged b = (set : ℕ) → IsConsistent h p (b.tags set)

  pub new_bp-IsTagged : IsTagged (new_bp h p e g)
  unfolding new_bp
  new_bp-IsTagged set = new_set-IsConsistent h p

  -- The state of the entry for an address: that of its way, or a reset one of the way to be taken.
  abbrev pub state_for : Bp h p e g → ℕ → Option ℕ → e.State
  state_for b set (some way) = b.directions way set
  state_for b set none = e.reset (b.directions (p.update (b.tags set).info).1 set)

  -- The branch is found, with its state trained once and its target.
  record IsTrained (b : Bp h p e g) (pc target : ℕ) (state : e.State) : Type 0 where
    way : ℕ
    found : find h p e g b pc ≡ some way
    direction : b.directions way (Geometry.set g pc) ≡ state
    place : b.targets way (Geometry.set g pc) ≡ target

  here {ℓ} : {A : Type ℓ} (f : ℕ → ℕ → A) (way set : ℕ) (v : A) → update_at f way set v way set ≡ v
  here f way set v =
      let e1 : (way == way) ≡ true = ground arith in
      let e2 : (set == set) ≡ true = ground arith in rw (e1, e2) refl

  own_set : (b : Bp h p e g) (set : ℕ) (s : CacheSet h p) → (with_set h p e g b set s).tags set ≡ s
  unfolding with_set
  own_set b set s = let same : (set == set) ≡ true = ground arith in rw same refl

  find-with_set :
      (b : Bp h p e g) (pc : ℕ) (s : CacheSet h p)
      → find h p e g (with_set h p e g b (Geometry.set g pc) s) pc
        ≡ read_no_touch h p s (Geometry.tag g pc)
  unfolding find
  find-with_set b pc s =
      ap (λ s'. read_no_touch h p s' (Geometry.tag g pc)) (own_set b (Geometry.set g pc) s)

  train-IsTrained :
      (b : Bp h p e g) (way : ℕ) (upd : BpInterface) (state : e.State)
      → find h p e g b upd.pc ≡ some way
      → b.directions way (Geometry.set g upd.pc) ≡ state
      → IsTrained
          (train h p e g b way (Geometry.set g upd.pc) upd)
          upd.pc
          upd.target
          (e.update state upd.is_taken)
  unfolding train find
  train-IsTrained b way upd state found old = record {
    way = way;
    found = found;
    direction =
        here b.directions way (Geometry.set g upd.pc) _ ∙ ap (λ o. e.update o upd.is_taken) old;
    place = here b.targets way (Geometry.set g upd.pc) _;
  }

  touched : (b : Bp h p e g) (pc way : ℕ) → CacheSet h p
  touched b pc way =
      let s : CacheSet h p = b.tags (Geometry.set g pc) in record s { info = p.touch s.info way }

  pub read_hit :
      (s : CacheSet h p) (t way : ℕ)
      → read_no_touch h p s t ≡ some way
      → read h p s t ≡ (record s { info = p.touch s.info way }, some way)
  unfolding read
  read_hit s t way hit = rw (hit, read) refl

  pub read_miss :
      (s : CacheSet h p) (t : ℕ) → read_no_touch h p s t ≡ none → read h p s t ≡ (s, none)
  unfolding read
  read_miss s t miss = rw (miss, read) refl

  update_hit :
      (b : Bp h p e g) (upd : BpInterface) (way : ℕ)
      → find h p e g b upd.pc ≡ some way
      → IsTrained
          (update h p e g b upd)
          upd.pc
          upd.target
          (e.update (b.directions way (Geometry.set g upd.pc)) upd.is_taken)
  unfolding update update_found find with_set
  update_hit b upd way hit =
      let s : CacheSet h p = b.tags (Geometry.set g upd.pc) in
      let after : CacheSet h p = record s { info = p.touch s.info way } in
      rw (read_hit s (Geometry.tag g upd.pc) way hit) (
        train-IsTrained (with_set h p e g b (Geometry.set g upd.pc) after) way upd _
          (find-with_set b upd.pc after ∙ unfold read_no_touch in hit) refl)

  update_miss :
      (b : Bp h p e g) (upd : BpInterface)
      → IsTagged b
      → IsKey (Geometry.tag g upd.pc)
      → find h p e g b upd.pc ≡ none
      → IsTrained
          (update h p e g b upd)
          upd.pc
          upd.target
          (e.update (state_for b (Geometry.set g upd.pc) none) upd.is_taken)
  unfolding update update_found find with_set allocate write
  update_miss b upd tagged key miss =
      let set : ℕ = Geometry.set g upd.pc in
      let tag : ℕ = Geometry.tag g upd.pc in
      let s : CacheSet h p = b.tags set in
      let (written, way) = write h p s tag in
      let b' : Bp h p e g = allocate h p e g (with_set h p e g b set written) way set in
      let placed = (write-IsConsistent h p s tag (tagged set) key miss).1.1 in
      let found : find h p e g b' upd.pc ≡ some way = find-with_set b upd.pc written ∙ placed in
      rw (read_miss s tag miss) (train-IsTrained b' way upd _ found (here b.directions way set _))

  update-IsTrained :
      (b : Bp h p e g) (upd : BpInterface)
      → IsTagged b
      → IsKey (Geometry.tag g upd.pc)
      → IsTrained
          (update h p e g b upd)
          upd.pc
          upd.target
          (e.update (state_for b (Geometry.set g upd.pc) (find h p e g b upd.pc)) upd.is_taken)
  update-IsTrained b upd tagged key = elim (Option-cases (find h p e g b upd.pc)) [
    | inl miss ↦ rw miss (update_miss b upd tagged key miss)
    | inr (way, hit) ↦ rw hit (update_hit b upd way hit)
  ]

  trained_info :
      (b : Bp h p e g) (pc target : ℕ) (state : e.State)
      → IsTrained b pc target state
      → (is_hit h p e g b pc ≡ true)
        × (is_taken h p e g b pc ≡ e.is_taken state pc target)
        × (get_target h p e g b pc
            ≡ (if e.is_taken state pc target then target else add_word 64 pc 4))
  unfolding is_hit is_taken get_target is_way_taken
  trained_info b pc target state t = (
    rw (t.found, is_hit) refl,
    rw (t.found, is_taken, t.place, is_way_taken, t.direction) refl,
    rw (t.found, get_target, t.place, is_way_taken, t.direction) refl,
  )

  -- Over a consistent tag array, and for a branch whose tag is not a reserved key: after `update` the
  -- branch is a hit; its prediction is that of its entry, or of a reset one after a miss, trained
  -- with the outcome; and the target of the update is given exactly when taken is predicted.
  pub trained_prediction :
      (b : Bp h p e g) (upd : BpInterface)
      → IsTagged b
      → IsKey (Geometry.tag g upd.pc)
      → (is_hit h p e g (update h p e g b upd) upd.pc ≡ true)
        × (is_taken h p e g (update h p e g b upd) upd.pc
            ≡ e.is_taken
                (e.update
                  (state_for b (Geometry.set g upd.pc) (find h p e g b upd.pc))
                  upd.is_taken)
                upd.pc
                upd.target)
        × (get_target h p e g (update h p e g b upd) upd.pc ≡ (
            if is_taken h p e g (update h p e g b upd) upd.pc
            then upd.target
            else add_word 64 upd.pc 4))
  trained_prediction b upd tagged key =
      let (hit, taken, target) = trained_info _ _ _ _ (update-IsTrained b upd tagged key) in
      (hit, taken, rw taken target)
