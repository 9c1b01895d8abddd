-- ===== src/Bpu.antt =====
-- modules/fetch/bpu/bpu.cpp, bpu.h and bp_interface.h: the branch prediction unit over a tag array and
-- a class of entries. The vectors `directions` and `targets` are functions of the way and the set,
-- whose bounds the tag array keeps.
pub mod Update
pub mod Invariant
use mipt_mips.Prelude.{ℕ, ◌+◌, Bool, true, false, Option, none, some, ◌==◌, ◌&&◌, if◌then◌else◌}
use mipt_mips.Prelude.Word.{add_word}
use mipt_mips.TagArray.{HashMap, Policy, CacheSet, new_set, read_no_touch, read, write}
use mipt_mips.TagArray.Geometry.{Geometry}
use mipt_mips.TagArray.Geometry as Geometry

-- What `BP` asks of a class of entries.
pub record EntryClass : Type 1 where
  pub State : Type 0
  pub default_state : State
  pub is_taken : State → ℕ → ℕ → Bool
  pub update : State → Bool → State
  pub reset : State → State

pub record BpInterface : Type 0 where
  pub pc : ℕ
  pub is_taken : Bool
  pub target : ℕ
  pub is_hit : Bool

-- A store into an array of two indices.
abbrev pub update_at {ℓ} : {A : Type ℓ} → (ℕ → ℕ → A) → ℕ → ℕ → A → ℕ → ℕ → A
update_at f way set v way' set' = if (way == way') && (set == set') then v else f way' set'

module _ (h : HashMap) {ways : ℕ} (p : Policy ways) (e : EntryClass) (g : Geometry) where
  pub record Bp : Type 0 where
    pub directions : ℕ → ℕ → e.State
    pub targets : ℕ → ℕ → ℕ
    pub tags : ℕ → CacheSet h p

  -- The constructor, for a size that the tag array accepts.
  unfoldable pub new_bp : Bp
  new_bp = record {
    directions = λ _ _. e.default_state;
    targets = λ _ _. 0;
    tags = λ _. new_set h p;
  }

  -- `tags->read_no_touch`
  unfoldable pub find : Bp → ℕ → Option ℕ
  find b pc = read_no_touch h p (b.tags (Geometry.set g pc)) (Geometry.tag g pc)

  unfoldable pub is_way_taken : Bp → ℕ → ℕ → ℕ → Bool
  is_way_taken b way pc target = e.is_taken (b.directions way (Geometry.set g pc)) pc target

  unfoldable pub is_taken : Bp → ℕ → Bool
  unfolding find is_way_taken
  is_taken b pc = elim (find b pc) [
    | none ↦ false
    | some way ↦ is_way_taken b way pc (b.targets way (Geometry.set g pc))
  ]

  unfoldable pub is_hit : Bp → ℕ → Bool
  unfolding find
  is_hit b pc = elim (find b pc) [ none ↦ false | some way ↦ true ]

  unfoldable pub get_target : Bp → ℕ → ℕ
  unfolding find is_way_taken
  get_target b pc = elim (find b pc) [
    | none ↦ add_word 64 pc 4
    | some way ↦
        let target = b.targets way (Geometry.set g pc) in
        if is_way_taken b way pc target then target else add_word 64 pc 4
  ]

  unfoldable pub get_bp_info : Bp → ℕ → BpInterface
  unfolding is_hit is_taken get_target
  get_bp_info b pc =
      if is_hit b pc
      then record { pc = pc; is_taken = is_taken b pc; target = get_target b pc; is_hit = true }
      else record { pc = pc; is_taken = false; target = add_word 64 pc 4; is_hit = false }

  -- The end of `update`, after a hit and after a miss.
  unfoldable pub train : Bp → ℕ → ℕ → BpInterface → Bp
  train b way set upd = record b {
    directions = update_at b.directions way set (e.update (b.directions way set) upd.is_taken);
    targets = update_at b.targets way set upd.target;
  }

  -- The tag array after a call of one set.
  unfoldable pub with_set : Bp → ℕ → CacheSet h p → Bp
  with_set b set s = record b { tags = λ set'. if set == set' then s else b.tags set' }

  unfoldable pub allocate : Bp → ℕ → ℕ → Bp
  unfolding with_set
  allocate b way set = record b {
    directions = update_at b.directions way set (e.reset (b.directions way set));
  }

  -- `update` from the answer of `tags->read`.
  unfoldable pub update_found : Bp → BpInterface → CacheSet h p × Option ℕ → Bp
  unfolding train with_set allocate
  update_found b upd (touched, some way) =
      let set : ℕ = Geometry.set g upd.pc in train (with_set b set touched) way set upd
  update_found b upd (touched, none) =
      let set : ℕ = Geometry.set g upd.pc in
      let (written, way) = write h p touched (Geometry.tag g upd.pc) in
      train (allocate (with_set b set written) way set) way set upd

  unfoldable pub update : Bp → BpInterface → Bp
  unfolding update_found
  update b upd =
      update_found b upd (read h p (b.tags (Geometry.set g upd.pc)) (Geometry.tag g upd.pc))
