-- ===== src/Fork.antt =====
-- `sys_fork` and `md_forkentry` (kern/syscalls/process_syscall.c), over the process table and the open
-- files. The parent waits for the child's `V`, so that both are one step.
pub mod Failures
mod Tests
use cs350_os.Base.{ℕ, Bool, Outcome, if◌then◌else◌, not, ◌==◌, done, ◌>>=◌, update, ◌||◌, leb, ◌^◌}
use cs350_os.Base.Errno.{enomem, eagain}
use cs350_os.Process.{Proc, Procs, Fresh, remove_process, add_process_child}
use cs350_os.Process as ProcessTable
use cs350_os.Process.Wait.{minus_one}
use cs350_os.Files.{Files, fd_table_create, share, max_file_open}

pub record Kernel : Type 0 where
  pub procs : Procs
  pub files : Files

-- What the code that `fork` calls returns: whether there is a semaphore, the error codes of
-- `thread_fork` and `as_copy`, and the allocations for the process, for its table, and for each console
-- with what `vfs_open` gives.
pub record Calls : Type 0 where
  pub sem_ok : Bool
  pub thread_fork : ℕ
  pub as_copy : ℕ
  pub fresh : Fresh
  pub table : ℕ
  pub mem : ℕ → ℕ
  pub console : ℕ → ℕ × ℕ

-- `md_forkentry` of a child of the process with the struct `me`, up to its `V`: `child_pid` and what is
-- left. The new thread has no process yet. `fd_table_create` stores the table in the process first.
pub md_forkentry : Calls → Kernel → ℕ → Outcome (ℕ × Kernel)
md_forkentry x k me =
    if not (x.as_copy == 0)
    then done (enomem, k)
    else (add_process_child k.procs x.fresh 0 >>= λ (child, s).
        if child == 0
        then done (eagain, record k { procs = s })
        else (ProcessTable.follow s child >>= λ p.
            let (result, files) = fd_table_create k.files x.table x.mem x.console in
            let s' = record s {
              proc = update s.proc child (record p { parent = me; table = x.table });
            } in
            if result == 0
            then (ProcessTable.follow s' me >>= λ q.
                share max_file_open 0 q.table x.table files >>= λ files'.
                done (p.pid, record { procs = s'; files = files' }))
            else (remove_process s' p.pid >>= λ (_, s'').
                done (result, record { procs = s''; files = files }))))

-- `sys_fork`: the error code, `*retval`, and what is left.
pub sys_fork : Calls → Kernel → ℕ → Outcome (ℕ × ℕ × Kernel)
unfolding md_forkentry
sys_fork x k me =
    if not x.sem_ok
    then done (enomem, minus_one, k)
    else if not (x.thread_fork == 0)
    then done (enomem, minus_one, k)
    else (md_forkentry x k me >>= λ (child_pid, k').
        if child_pid == 0 || leb (2 ^ 31) child_pid
        then done (enomem, minus_one, k')
        else done (0, child_pid, k'))
