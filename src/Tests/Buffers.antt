-- ===== src/Tests/Buffers.antt =====
-- Queues and the replacement policies at concrete states.
use mipt_mips.Prelude.{true, some, ℕ, ◌+◌, ◌<◌, ◌≡◌, ◌≢◌, refl, List, [], ◌∷◌, arith}
use mipt_mips.Ports.{PortQueue, resize, new}
use mipt_mips.Ports.Fifo.{Represents, resize-Represents}
use mipt_mips.Ports.Runs.{PortOp, run, run_list, run-eq-run_list}
use mipt_mips.Replacement.Lru.{Lru}
use mipt_mips.Replacement.Lru as Lru
use mipt_mips.Replacement.Lru.Recency.{
  Use, created, touched, set_erased, goes_before, victim_oldest,
}
use mipt_mips.Replacement.PseudoLru.{Flags, PseudoLru}
use mipt_mips.Replacement.PseudoLru as PseudoLru
use mipt_mips.Replacement.PseudoLru.Descent.{Descends}
use mipt_mips.Replacement.PseudoLru.Victim.{update-Descends, victim-touch}

abbrev two_places : PortQueue ℕ
two_places = resize new 2

two_places-Represents : Represents two_places []
two_places-Represents = (resize-Represents new 2 (omega arith) (omega arith)).0

abbrev traffic : List (PortOp ℕ)
traffic =
    PortOp.write 1
    ∷ PortOp.write 2
    ∷ PortOp.write 3
    ∷ PortOp.read
    ∷ PortOp.write 4
    ∷ PortOp.read
    ∷ PortOp.read
    ∷ PortOp.read
    ∷ []

run_example :
    ((run traffic two_places).0 ≡ (run_list two_places.capacity traffic []).0)
    × Represents (run traffic two_places).1 (run_list two_places.capacity traffic []).1
run_example = run-eq-run_list traffic [] two_places-Represents

-- Ways 0, 1 and 2 are touched, and way 1 is erased.
abbrev erased_set : Lru
erased_set = Lru.set_to_erase (Lru.touch (Lru.touch (Lru.touch (Lru.init 3) 0) 1) 2) 1

abbrev calls : List Use
calls = Use.erased 1 ∷ Use.used 2 ∷ Use.used 1 ∷ Use.used 0 ∷ []

victim_oldest_example :
    (victim : ℕ) × (victim < 3)
    × (Lru.update erased_set ≡ some (victim, Lru.touch erased_set victim))
    × ((u : ℕ) → u < 3 → u ≢ victim → goes_before calls victim u ≡ true)
victim_oldest_example = victim_oldest 3 erased_set calls (omega arith) (
    set_erased (touched (touched (touched created 0 (omega arith)) 1 (omega arith)) 2 (omega arith))
      1 (omega arith))

abbrev four_ways : PseudoLru
four_ways = record { nodes = Flags.left ∷ Flags.right ∷ Flags.left ∷ []; ways = 4 }

update-Descends_example :
    Descends four_ways.nodes 0 (3 + (PseudoLru.update four_ways).0)
    × ((PseudoLru.update four_ways).0 < 4)
update-Descends_example = update-Descends four_ways refl

victim-touch_example : PseudoLru.victim (PseudoLru.touch four_ways 2) ≢ 2
victim-touch_example = victim-touch four_ways 2 refl (omega arith) (omega arith)
