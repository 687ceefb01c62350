-- ===== src/Fork/Failures.antt =====
-- What `sys_fork` reports when it fails.
use cs350_os.Base.{ℕ, ◌≤◌, ◌≡◌, ◌<◌, false, done, ◌≢◌, inl, arith, true, inr, refl}
use cs350_os.Base.Errno.{enomem, eagain}
use cs350_os.Process.{Fresh, Procs, add_process_child}
use cs350_os.Process.Inv.{IsValid}
use cs350_os.Process.Slot.{Taken}
use cs350_os.Process.Add.{IsFresh, add_process_child-Added}
use cs350_os.Process.Wait.{minus_one}
use cs350_os.Fork.{Kernel, Calls, sys_fork}

-- A process table whose entries are all in use makes no process.
full_table :
    {s : Procs} (f : Fresh)
    → IsValid s
    → IsFresh s f
    → ((j : ℕ) → 1 ≤ j → j < 100 → Taken s j)
    → add_process_child s f 0 ≡ done (0, s)
full_table {s} f valid fresh full =
    elim (add_process_child-Added 0 0 valid fresh (λ h. absurd (h refl))) [
      | inl (k, t, ran, lo, hi, (over, before), vt, at_k, rest) ↦
          let (used, busy) = full k lo hi in absurd (ground (arith, over, used, busy))
      | inr (ran, all) ↦ ran
    ]

-- Without a semaphore or a thread `sys_fork` returns ENOMEM, sets the pid to -1, and changes nothing. If
-- the address space cannot be copied, or the process table has no free entry, it also changes nothing,
-- but it returns 0, and the pid that it gives the parent is the error code.
pub sys_fork_failures :
    {k : Kernel} (x : Calls) (me : ℕ)
    → IsValid k.procs
    → IsFresh k.procs x.fresh
    → (x.sem_ok ≡ false → sys_fork x k me ≡ done (enomem, minus_one, k))
      × (x.thread_fork ≢ 0 → sys_fork x k me ≡ done (enomem, minus_one, k))
      × (x.sem_ok ≡ true
          → x.thread_fork ≡ 0
          → x.as_copy ≢ 0
          → sys_fork x k me ≡ done (0, enomem, k))
      × (x.sem_ok ≡ true
          → x.thread_fork ≡ 0
          → x.as_copy ≡ 0
          → ((j : ℕ) → 1 ≤ j → j < 100 → Taken k.procs j)
          → sys_fork x k me ≡ done (0, eagain, k))
unfolding sys_fork
sys_fork_failures {k} x me valid fresh = (
  λ e. ground arith,
  λ ne. ground arith,
  λ a b c. ground arith,
  λ a b c full. ground (arith, full_table x.fresh valid fresh full),
)
