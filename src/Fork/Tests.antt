-- ===== src/Fork/Tests.antt =====
-- A kernel with no process, and the theorem at it.
use cs350_os.Base.{ℕ, [], false, true, ◌≡◌, refl, ◌+◌, Bool, done, ◌≢◌, ◌≤◌, ◌<◌, arith}
use cs350_os.Base.Errno.{enomem, eagain}
use cs350_os.Process.{Proc}
use cs350_os.Process.Inv.{IsValid}
use cs350_os.Process.Slot.{Taken}
use cs350_os.Process.Wait.{minus_one}
use cs350_os.Fork.{Kernel, Calls, sys_fork}
use cs350_os.Fork.Failures.{sys_fork_failures}

abbrev blank : Proc
blank = record {
  pid = 0;
  exit_code = 0;
  exit = 0;
  exit_cv = 0;
  exit_lock = 0;
  table = 0;
  proc_cv = 0;
  fd_lock = 0;
  parent = 0;
}

-- No process, and no file.
abbrev idle : Kernel
idle = record {
  procs = record { slot = λ i. 0; proc = λ p. blank; alive = λ p. false; owner = λ l. 0 };
  files = record {
    fds = λ t fd. 0;
    tables = λ t. false;
    file = λ f. record { flag = 0; offset = 0; ref_count = 0; vn = 0 };
    alive = λ f. false;
    closed = [];
  };
}

idle-IsValid : IsValid idle.procs
idle-IsValid = record {
  null = refl;
  live = λ i u. absurd (u.2 refl);
  named = λ i u. absurd (u.2 refl);
  locked = λ i u. absurd (u.2 refl);
  no_self = λ i u. absurd (u.2 refl);
  parent_used = λ i u p. absurd (u.2 refl);
  parent_runs = λ i u p. absurd (u.2 refl);
}

-- There is memory for all but the copy of the address space.
abbrev no_memory : Calls
no_memory = record {
  sem_ok = true;
  thread_fork = 0;
  as_copy = 3;
  fresh = record {
    address = 40;
    junk = blank;
    exit_lock = 501;
    exit_cv = 502;
    proc_cv = 503;
    fd_lock = 504;
  };
  table = 50;
  mem = λ i. 60 + i;
  console = λ i. (0, 70);
}

sys_fork_failures_example :
    (◌≡◌ {A = Bool} true false → sys_fork no_memory idle 10 ≡ done (enomem, minus_one, idle))
    × (◌≢◌ {A = ℕ} 0 0 → sys_fork no_memory idle 10 ≡ done (enomem, minus_one, idle))
    × (◌≡◌ {A = Bool} true true
        → ◌≡◌ {A = ℕ} 0 0
        → ◌≢◌ {A = ℕ} 3 0
        → sys_fork no_memory idle 10 ≡ done (0, enomem, idle))
    × (◌≡◌ {A = Bool} true true
        → ◌≡◌ {A = ℕ} 0 0
        → ◌≡◌ {A = ℕ} 3 0
        → ((j : ℕ) → 1 ≤ j → j < 100 → Taken idle.procs j)
        → sys_fork no_memory idle 10 ≡ done (0, eagain, idle))
sys_fork_failures_example =
    sys_fork_failures no_memory 10 idle-IsValid
      (record { got = omega arith; unused = refl; lock = omega arith })
