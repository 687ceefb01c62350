-- ===== src/Process/Wait.antt =====
-- The system calls on processes: `getpid` and `waitpid` (kern/syscalls/process_syscall.c) and `_exit`
-- (kern/syscalls/file_syscall.c), each up to the point where the thread sleeps or ends. `proc_lock` is
-- held there, so that each is one step.
pub mod Reap
use cs350_os.Base.{
  Bool, assert, ◌>>◌, ℕ, ◌^◌, Outcome, Option, ◌-◌, if◌then◌else◌, ◌>>=◌, done, ◌==◌, not, some,
  none,
}
use cs350_os.Base.Errno.{einval, eagain, enomem}
use cs350_os.Process.{Proc, Procs, entry, follow, remove_process, exit_process, process_get}

-- -1 in a register.
abbrev pub minus_one : ℕ
minus_one = 2 ^ 32 - 1

-- `getpid` of the process whose struct is `me`.
pub getpid : Procs → ℕ → Outcome ℕ
getpid s me = do p ← follow s me; e ← entry s p.pid; done (if e == 0 then minus_one else p.pid)

-- What a step of `waitpid` ends in: a return of `pid` with what `*errno` and `*status` are set to, or
-- a `cv_wait` on the `exit_cv` of the struct `kid`.
pub data Waited : Type 0 where
  returned : (pid errno : ℕ) (status : Option ℕ) → Procs → Waited
  sleeping : (kid : ℕ) → Waited

-- The store through the user's pointer `status`, which `waitpid` does not check: `writable` tells whether there is
-- an `int` of the caller there. A store anywhere else is an access outside the object.
abbrev pub store_status : Bool → Outcome (Unit {0})
store_status writable = assert writable

-- The end of `waitpid`: the status is stored and the process removed.
pub reap : Bool → Procs → ℕ → ℕ → Outcome Waited
reap writable s kid pid = do
  p ← follow s kid
  _ ← store_status writable
  r ← remove_process s p.pid
  done (returned pid 0 (some p.exit_code) r.1)

-- The loop of `waitpid`, from its test on: entered first, and again after each `cv_wait`.
pub wait_loop : Bool → Procs → ℕ → ℕ → Outcome Waited
wait_loop writable s kid pid = do
  p ← follow s kid
  if p.exit == 0 then done (sleeping kid) else reap writable s kid pid

-- `waitpid` by the process whose struct is `me`.
pub waitpid : Bool → Procs → ℕ → ℕ → ℕ → Outcome Waited
waitpid writable s me pid options =
    if not (options == 0)
    then done (returned minus_one einval none s)
    else (process_get s pid >>= λ kid.
        if kid == 0
        then (store_status writable >> done (returned minus_one eagain (some minus_one) s))
        else (follow s kid >>= λ p.
            if not (p.parent == me)
            then done (returned minus_one enomem none s)
            else if p.exit == 1
            then reap writable s kid pid
            else wait_loop writable s kid pid))

-- `_exit` of the process whose struct is `me`, up to `thread_exit`: the condition variable that is
-- signalled and then destroyed, if there is one.
pub exit_call : Procs → ℕ → ℕ → Outcome (Option ℕ × Procs)
exit_call s me exitcode = follow s me >>= λ p.
    if p.parent == 0
    then done (none, s)
    else (exit_process s p.pid exitcode >>= λ (code, s').
        done ((if code == 0 then some p.exit_cv else none), s'))
