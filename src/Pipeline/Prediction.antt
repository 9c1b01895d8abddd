-- ===== src/Pipeline/Prediction.antt =====
-- The checks of the decode and of the branch stage together: the pipeline goes on at the address that
-- the executed jump goes to.
use mipt_mips.Prelude.{
  ℕ, ◌≡◌, refl, Bool, true, false, ◌||◌, ◌==◌, if◌then◌else◌, arith, Bool-cases, Option-cases, ◌⊎◌,
  inl, inr, some,
}
use mipt_mips.Prelude.Word.{add_word}
use mipt_mips.Operation.{
  Datapath, OperationType, is_direct_jump, is_indirect_jump, is_common_branch, is_likely_branch,
  is_branch, is_taken,
}
use mipt_mips.Alu.Branches.{branch, jump, j, check_halt_trap}
use mipt_mips.TagArray.{HashMap, Policy}
use mipt_mips.TagArray.Geometry.{Geometry}
use mipt_mips.TagArray.Geometry as Geometry
use mipt_mips.Bpu.{EntryClass, BpInterface, Bp, get_bp_info, find, is_hit, is_way_taken, get_target}
use mipt_mips.Bpu as Bpu
use mipt_mips.Pipeline.{PerfInstr}
use mipt_mips.Pipeline.Branch as Branch
use mipt_mips.Pipeline.Decode as Decode

-- Where the fetch goes on after the instruction: at the target of the branch stage, else at that of the
-- decode stage, else at the predicted one.
unfoldable pub next_address : PerfInstr → ℕ
next_address instr =
    if Branch.is_misprediction instr instr.bp_data
    then instr.func_instr.new_pc
    else if Decode.is_misprediction instr instr.bp_data
    then instr.func_instr.target
    else instr.bp_data.target

-- A jump or a branch after `execute`: of four bytes, without delay slots.
pub data IsExecuted : Datapath → Type 0 where
  direct : (d : Datapath) → d.operation ≡ OperationType.out_j_jump → IsExecuted (j d)
  indirect :
      (d : Datapath) (target : ℕ)
      → d.operation ≡ OperationType.out_r_jump
      → IsExecuted (jump d target)
  common :
      (p : Datapath → Bool) (d : Datapath)
      → d.operation ≡ OperationType.out_branch
      → d.new_pc ≡ add_word 64 d.pc 4
      → IsExecuted (branch p d)
  likely :
      (p : Datapath → Bool) (d : Datapath)
      → d.operation ≡ OperationType.out_branch_likely
      → d.new_pc ≡ add_word 64 d.pc 4
      → IsExecuted (branch p d)

-- What a prediction says: taken after a hit, or the next instruction.
abbrev IsPrediction : ℕ → BpInterface → Type 0
IsPrediction pc bp =
    ((bp.is_taken ≡ true) × (bp.is_hit ≡ true))
    ⊎ ((bp.is_taken ≡ false) × (bp.target ≡ add_word 64 pc 4))

-- What an executed jump has.
abbrev IsJump : Datapath → Type 0
IsJump d =
    ((d.operation ≡ OperationType.out_j_jump) × (d.new_pc ≡ d.target))
    ⊎ ((d.operation ≡ OperationType.out_r_jump)
        ⊎ (((d.operation ≡ OperationType.out_branch)
              ⊎ (d.operation ≡ OperationType.out_branch_likely))
            × (((d.is_taken_branch ≡ true) × (d.new_pc ≡ d.target))
                ⊎ ((d.is_taken_branch ≡ false) × (d.new_pc ≡ add_word 64 d.pc 4)))))

next_address_lem :
    (instr : PerfInstr)
    → IsJump instr.func_instr
    → IsPrediction instr.func_instr.pc instr.bp_data
    → next_address instr ≡ instr.func_instr.new_pc
unfolding next_address Branch.is_misprediction Decode.is_misprediction is_direct_jump
    is_indirect_jump is_common_branch is_likely_branch is_branch is_taken
next_address_lem instr (inl (o, e)) prediction = rw o (ground (arith, e, prediction))
next_address_lem instr (inr (inl o)) prediction = rw o (ground (arith, prediction))
next_address_lem instr (inr (inr (inl o, outcome))) prediction =
    rw o (ground (arith, outcome, prediction))
next_address_lem instr (inr (inr (inr o, outcome))) prediction =
    rw o (ground (arith, outcome, prediction))

-- The check for a halt leaves everything but the trap.
halt-IsJump : (d : Datapath) → IsJump d → IsJump (check_halt_trap d)
unfolding check_halt_trap
halt-IsJump d h = elim (Bool-cases (d.new_pc == 0 || d.new_pc == d.pc)) [
  | inl halts ↦ rw halts h
  | inr runs ↦ rw runs h
]

branch_taken :
    (p : Datapath → Bool) (d : Datapath)
    → p d ≡ true
    → branch p d ≡ check_halt_trap (record d { is_taken_branch = true; new_pc = d.target })
unfolding branch check_halt_trap
branch_taken p d e = rw e refl

branch_not_taken :
    (p : Datapath → Bool) (d : Datapath)
    → p d ≡ false
    → branch p d ≡ (record d { is_taken_branch = false })
unfolding branch
branch_not_taken p d e = rw e refl

branch-IsJump :
    (p : Datapath → Bool) (d : Datapath)
    → (d.operation ≡ OperationType.out_branch) ⊎ (d.operation ≡ OperationType.out_branch_likely)
    → d.new_pc ≡ add_word 64 d.pc 4
    → IsJump (branch p d)
branch-IsJump p d o e = elim (Bool-cases (p d)) [
  | inl taken ↦ rw (branch_taken p d taken) (
      halt-IsJump (record d { is_taken_branch = true; new_pc = d.target })
        (inr (inr (o, inl (refl, refl)))))
  | inr other ↦ rw (branch_not_taken p d other) (inr (inr (o, inr (refl, e))))
]

IsExecuted-IsJump : (d : Datapath) → IsExecuted d → IsJump d
unfolding j jump
IsExecuted-IsJump _ (IsExecuted.direct d o) =
    halt-IsJump (record d { is_taken_branch = true; new_pc = d.target }) (inl (o, refl))
IsExecuted-IsJump _ (IsExecuted.indirect d target o) =
    halt-IsJump (record d { is_taken_branch = true; new_pc = target }) (inr (inl o))
IsExecuted-IsJump _ (IsExecuted.common p d o e) = branch-IsJump p d (inl o) e
IsExecuted-IsJump _ (IsExecuted.likely p d o e) = branch-IsJump p d (inr o) e

module _ (h : HashMap) {ways : ℕ} (p : Policy ways) (e : EntryClass) (g : Geometry) where
  way_prediction :
      (b : Bp h p e g) (pc way : ℕ)
      → find h p e g b pc ≡ some way
      → ((Bpu.is_taken h p e g b pc ≡ true) × (true ≡ true))
        ⊎ ((Bpu.is_taken h p e g b pc ≡ false) × (get_target h p e g b pc ≡ add_word 64 pc 4))
  unfolding Bpu.is_taken get_target
  way_prediction b pc way found =
      elim (Bool-cases (is_way_taken h p e g b way pc (b.targets way (Geometry.set g pc)))) [
        | inl taken ↦ inl (rw (found, Bpu.is_taken) taken, refl)
        | inr other ↦ inr (rw (found, Bpu.is_taken) other, rw (found, get_target) (rw other refl))
      ]

  get_bp_info-IsPrediction : (b : Bp h p e g) (pc : ℕ) → IsPrediction pc (get_bp_info h p e g b pc)
  unfolding get_bp_info is_hit Bpu.is_taken get_target
  get_bp_info-IsPrediction b pc = elim (Option-cases (find h p e g b pc)) [
    | inl missing ↦
        let hit : is_hit h p e g b pc ≡ false = rw (missing, is_hit) refl in
        rw (hit, get_bp_info) (inr (refl, refl))
    | inr (way, found) ↦
        let hit : is_hit h p e g b pc ≡ true = rw (found, is_hit) refl in
        rw (hit, get_bp_info) (way_prediction b pc way found)
  ]

  -- After an executed jump or branch the pipeline goes on at the address that it goes to, whatever the
  -- prediction unit had learnt: what neither the decode nor the branch stage takes for a
  -- misprediction was predicted.
  pub next_address-get_bp_info :
      (b : Bp h p e g) (instr : PerfInstr)
      → IsExecuted instr.func_instr
      → instr.bp_data ≡ get_bp_info h p e g b instr.func_instr.pc
      → next_address instr ≡ instr.func_instr.new_pc
  next_address-get_bp_info b instr executed predicted =
      next_address_lem instr (IsExecuted-IsJump instr.func_instr executed)
        (rw predicted (get_bp_info-IsPrediction b instr.func_instr.pc))
