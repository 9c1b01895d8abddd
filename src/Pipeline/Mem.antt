-- ===== src/Pipeline/Mem.antt =====
-- modules/mem: the stage of loads and stores. `none` is an exception of the memory.
use mipt_mips.Prelude.{ℕ, Bool, ◌||◌, Option, none, some, if◌then◌else◌, ◌>>=◌}
use mipt_mips.Endian.{Endian}
use mipt_mips.Memory.Access.{FuncMemory, load_store}
use mipt_mips.Pipeline.{PerfInstr, is_set}

pub record Inputs : Type 0 where
  pub flush : Option Bool
  pub trap : Option Bool
  pub datapath : Option PerfInstr

pub record Outputs : Type 0 where
  pub bypass : Option (ℕ × ℕ)
  pub datapath : Option PerfInstr

abbrev pub no_outputs : Outputs
no_outputs = record { bypass = none; datapath = none }

module _ (f : FuncMemory) where
  unfoldable pub clock : ℕ → Endian → f.Memory → Inputs → Option (f.Memory × Outputs)
  unfolding is_set
  clock n endian memory i =
      if is_set i.flush || is_set i.trap then some (memory, no_outputs) else elim i.datapath [
        | none ↦ some (memory, no_outputs)
        | some instr ↦ do
          (loaded, memory') ← load_store f n endian instr.func_instr memory
          some (
            memory',
            record {
              bypass = some (loaded.v_dst0, loaded.v_dst1);
              datapath = some (record instr { func_instr = loaded });
            },
          )
      ]
