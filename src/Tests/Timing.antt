-- ===== src/Tests/Timing.antt =====
-- The clocked ports and the branch prediction unit at concrete inputs.
use mipt_mips.Prelude.{
  ℕ, ◌+◌, ◌-◌, ◌^◌, ◌<◌, ◌≡◌, true, false, some, List, [], ◌∷◌, ◌==◌, leb, if◌then◌else◌, arith,
}
use mipt_mips.Prelude.Word.{add_word}
use mipt_mips.Ports.{new}
use mipt_mips.Ports.Fifo.{Represents, resize-Represents}
use mipt_mips.Ports.Clocked.{ReadPort, WritePort, read, emplace_data, new_read_port, init_read_port}
use mipt_mips.Ports.Clocked.Pending.{Agree}
use mipt_mips.Ports.Clocked.Delivery.{read-emplace_data, count_due}
use mipt_mips.Ports.Clocked.Bandwidth.{accepted, accepted_lem}
use mipt_mips.BranchPredictor.{TwoBit, two_bit_default, two_bit_update, two_bit_is_taken}
use mipt_mips.TagArray.{IsKey}
use mipt_mips.TagArray.Geometry.{Geometry}
use mipt_mips.TagArray.Geometry as Geometry
use mipt_mips.Bpu.{EntryClass, BpInterface, Bp, new_bp, find, is_taken, is_hit, get_target, update}
use mipt_mips.Bpu.Update.{IsTagged, new_bp-IsTagged, state_for, trained_prediction}
use mipt_mips.Bpu.Invariant.{update-IsTagged}
use mipt_mips.Tests.Caches.{functions, four_ways}

-- A port of latency 2 and bandwidth 1.
abbrev port : ReadPort ℕ
port = init_read_port (new_read_port 2) 1

port-Represents : Represents port.queue []
unfolding init_read_port new_read_port
port-Represents = (resize-Represents new 3 (omega arith) (omega arith)).0

read-emplace_data_example : Agree (read (emplace_data port 7 5) (5 + port.latency)) (some (7, []))
unfolding init_read_port new_read_port
read-emplace_data_example =
    read-emplace_data port 7 5 [] port-Represents (ground arith) (omega arith) tt

abbrev entries : List (ℕ × ℕ)
entries = (1, 5) ∷ (2, 6) ∷ []

count-entries : (later : ℕ) → count_due later entries < 2
count-entries later = ground arith

abbrev writer : WritePort ℕ
writer = record { destinations = []; last_cycle = 0; write_counter = 0; bandwidth = 1 }

accepted_lem_example : accepted 2 1 writer ≡ (
    if writer.last_cycle == 1
    then leb (writer.write_counter + 2) writer.bandwidth
    else leb 2 (writer.bandwidth + 1))
accepted_lem_example = accepted_lem 2 1 writer (omega arith) (omega arith)

abbrev pub two_bits : EntryClass
two_bits = record {
  State = TwoBit;
  default_state = two_bit_default;
  is_taken = λ s pc target. two_bit_is_taken s;
  update = two_bit_update;
  reset = λ s. two_bit_default;
}

-- 16 branches in 4 sets of 4 ways.
abbrev pub buffer : Geometry
buffer = record { line_bits = 2; sets = 4; set_bits = 4; addr_mask = 2 ^ 32 - 1 }

abbrev pub unit : Bp functions four_ways two_bits buffer
unit = new_bp functions four_ways two_bits buffer

abbrev branch : BpInterface
branch = record { pc = 0x48; is_taken = true; target = 0x100; is_hit = false }

branch-IsKey : IsKey (Geometry.tag buffer 0x48)
unfolding Geometry.tag
branch-IsKey = (λ e. ground arith, λ e. ground arith)

trained_prediction_example :
    (is_hit functions four_ways two_bits buffer
        (update functions four_ways two_bits buffer unit branch)
        0x48
      ≡ true)
    × (is_taken functions four_ways two_bits buffer
          (update functions four_ways two_bits buffer unit branch)
          0x48
        ≡ two_bit_is_taken (
            two_bit_update
              (state_for functions four_ways two_bits buffer unit
                (Geometry.set buffer 0x48)
                (find functions four_ways two_bits buffer unit 0x48))
              true))
    × (get_target functions four_ways two_bits buffer
          (update functions four_ways two_bits buffer unit branch)
          0x48
        ≡ (if is_taken functions four_ways two_bits buffer
              (update functions four_ways two_bits buffer unit branch)
              0x48
            then 0x100
            else add_word 64 0x48 4))
trained_prediction_example =
    trained_prediction functions four_ways two_bits buffer unit branch
      (new_bp-IsTagged functions four_ways two_bits buffer) branch-IsKey

update-IsTagged_example :
    IsTagged functions four_ways two_bits buffer
      (update functions four_ways two_bits buffer unit branch)
update-IsTagged_example =
    update-IsTagged functions four_ways two_bits buffer unit branch
      (new_bp-IsTagged functions four_ways two_bits buffer) branch-IsKey
