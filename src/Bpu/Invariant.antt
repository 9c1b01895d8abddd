-- ===== src/Bpu/Invariant.antt =====
-- Training keeps every set of the tag array consistent.
use mipt_mips.Prelude.{ℕ, ◌==◌, Bool-cases, Option-cases, inl, inr}
use mipt_mips.TagArray.{IsKey, HashMap, Policy, CacheSet}
use mipt_mips.TagArray.Consistency.{IsConsistent, write-IsConsistent, touch-IsConsistent}
use mipt_mips.TagArray.Geometry.{Geometry}
use mipt_mips.TagArray.Geometry as Geometry
use mipt_mips.Bpu.{
  EntryClass, BpInterface, Bp, find, train, with_set, allocate, update, update_found,
}
use mipt_mips.Bpu.Update.{IsTagged, read_hit, read_miss}

module _ (h : HashMap) {ways : ℕ} (p : Policy ways) (e : EntryClass) (g : Geometry) where
  with_set-IsTagged :
      (b : Bp h p e g) (set : ℕ) (s : CacheSet h p)
      → IsTagged h p e g b
      → IsConsistent h p s
      → IsTagged h p e g (with_set h p e g b set s)
  unfolding with_set
  with_set-IsTagged b set s tagged ok set' = elim (Bool-cases (set == set')) [
    | inl same ↦ rw same ok
    | inr other ↦ rw other (tagged set')
  ]

  -- For a branch whose tag is not a reserved key, `update` keeps every set of the tag array
  -- consistent.
  pub update-IsTagged :
      (b : Bp h p e g) (upd : BpInterface)
      → IsTagged h p e g b
      → IsKey (Geometry.tag g upd.pc)
      → IsTagged h p e g (update h p e g b upd)
  unfolding update update_found train allocate find
  update-IsTagged b upd tagged key =
      let set : ℕ = Geometry.set g upd.pc in
      let tag : ℕ = Geometry.tag g upd.pc in
      let s : CacheSet h p = b.tags set in
      elim (Option-cases (find h p e g b upd.pc)) [
        | inl miss ↦ rw (read_miss h p e g s tag miss) (
            with_set-IsTagged b set _ tagged (write-IsConsistent h p s tag (tagged set) key miss).0)
        | inr (way, hit) ↦ rw (read_hit h p e g s tag way hit) (
            with_set-IsTagged b set _ tagged
              (touch-IsConsistent h p s tag way (tagged set) key hit))
      ]
