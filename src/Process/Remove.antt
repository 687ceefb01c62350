-- ===== src/Process/Remove.antt =====
-- `remove_process` frees a struct that nobody names as parent.
use cs350_os.Base.{ℕ, update, ◌≡◌, ◌≢◌, arith, false, done}
use cs350_os.Process.{Procs, remove_process}
use cs350_os.Process.Inv.{Used, IsValid, Childless, slot_injective}

abbrev pub removed : Procs → ℕ → Procs
removed s i = record s { alive = update s.alive (s.slot i) false; slot = update s.slot i 0 }

module _ {s : Procs} (valid : IsValid s) (i : ℕ) (used : Used s i) where
  open valid use {null, live, named, locked, no_self, parent_used, parent_runs}

  pub remove_process_lem : remove_process s i ≡ done (0, removed s i)
  unfolding remove_process
  remove_process_lem = ground (arith, live i used, locked i used)

  still : (j : ℕ) → Used (removed s i) j → Used s j × (j ≢ i) × (s.slot j ≢ s.slot i)
  still j u = ground (arith, slot_injective valid j i)

  pub removed-IsValid : Childless s (s.slot i) → IsValid (removed s i)
  removed-IsValid alone = record {
    null = ground (arith, null);
    live = λ j u. ground (arith, still j u, live j);
    named = λ j u. ground (arith, still j u, named j);
    locked = λ j u. ground (arith, still j u, locked j);
    no_self = λ j u. ground (arith, still j u, no_self j);
    parent_used = λ j u p. ground (arith, still j u, parent_used j, alone j);
    parent_runs = λ j u p. ground (arith, still j u, parent_runs j);
  }
