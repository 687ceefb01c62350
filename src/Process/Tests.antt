-- ===== src/Process/Tests.antt =====
-- kern/syscalls/process.c on a table of three processes, and the theorems at it.
use cs350_os.Base.{ℕ, update, arith, ◌≢◌, false, ◌≡◌, refl, true, done}
use cs350_os.Process.{Proc, Procs, Fresh, add_process_child, exit_process}
use cs350_os.Process.Inv.{Used, at, IsValid, Childless}
use cs350_os.Process.Add.{IsFresh, Added, add_process_child-Added}
use cs350_os.Process.Exit.{marked, after_exit, exit_process_orphans}

abbrev struct_of : ℕ → ℕ → Proc
struct_of pid parent = record {
  pid = pid;
  exit_code = 0;
  exit = 0;
  exit_cv = 0;
  exit_lock = 0;
  table = 0;
  proc_cv = 0;
  fd_lock = 500;
  parent = parent;
}

-- Process 1 is a root, 2 its child and 3 the child of 2.
abbrev family : Procs
family = record {
  slot = update (update (update (λ _. 0) 1 10) 2 20) 3 30;
  proc =
      update (update (update (λ _. struct_of 0 0) 10 (struct_of 1 0)) 20 (struct_of 2 10)) 30
        (struct_of 3 20);
  alive = update (update (update (λ _. false) 10 true) 20 true) 30 true;
  owner = λ _. 0;
}

family-IsValid : IsValid family
family-IsValid = record {
  null = refl;
  live = λ i u. ground arith;
  named = λ i u. ground arith;
  locked = λ i u. ground arith;
  no_self = λ i u. ground arith;
  parent_used = λ i u p. ground arith;
  parent_runs = λ i u p. ground arith;
}

abbrev memory : Fresh
memory = record {
  address = 40;
  junk = struct_of 7 7;
  exit_lock = 501;
  exit_cv = 502;
  proc_cv = 503;
  fd_lock = 504;
}

memory-IsFresh : IsFresh family memory
memory-IsFresh = record { got = omega arith; unused = refl; lock = omega arith }

add_process_child-Added_example : Added family memory 30 (add_process_child family memory 30)
add_process_child-Added_example =
    add_process_child-Added 3 30 family-IsValid memory-IsFresh
      (λ h. ((omega arith, omega arith, omega arith), refl, omega arith))

exit_process_orphans_example :
    ((at family 2).parent ≢ 0
      → (t : Procs) × (exit_process family 2 5 ≡ done (0, t))
        × IsValid t
        × (t.slot ≡ family.slot)
        × ((j : ℕ) → Used family j → at t j ≡ after_exit family 2 5 j)
        × Childless t 20)
    × ((at family 2).parent ≡ 0 → exit_process family 2 5 ≡ done (0, marked family 2 5))
exit_process_orphans_example =
    exit_process_orphans family-IsValid 2 (omega arith, omega arith, omega arith) 5
