-- ===== src/Process.antt =====
-- kern/syscalls/process.c: the process table and the structs that its entries point to.
pub mod Inv
pub mod Remove
pub mod Slot
pub mod Add
pub mod Orphan
pub mod Exit
pub mod Wait
mod Tests
use cs350_os.Base.{
  ℕ, Bool, Outcome, if◌then◌else◌, assert, done, ◌-◌, ltb, panic, not, ◌==◌, ◌>>=◌, leb, suc, ◌>>◌,
  true, ◌+◌, update, false, ◌&&◌, ◌||◌, zero,
}

-- `struct process`. A pointer is an address, and 0 is NULL.
pub record Proc : Type 0 where
  pub pid : ℕ
  pub exit_code : ℕ
  pub exit : ℕ
  pub exit_cv : ℕ
  pub exit_lock : ℕ
  pub table : ℕ
  pub proc_cv : ℕ
  pub fd_lock : ℕ
  pub parent : ℕ

-- The table `proctable`, the structs in the kernel heap with the addresses that are allocated,
-- and the owner of each lock (0 for none).
pub record Procs : Type 0 where
  pub slot : ℕ → ℕ
  pub proc : ℕ → Proc
  pub alive : ℕ → Bool
  pub owner : ℕ → ℕ

abbrev pub min_process : ℕ
min_process = 1

abbrev pub max_process : ℕ
max_process = 100

-- `proctable[i]`: the array has `MAX_PROCESS` entries.
abbrev pub entry : Procs → ℕ → Outcome ℕ
entry s i = if ltb i max_process then done (s.slot i) else panic

-- `*p`
abbrev pub follow : Procs → ℕ → Outcome Proc
follow s p = if s.alive p then done (s.proc p) else panic

-- `lock_destroy`: its two assertions.
abbrev pub lock_destroy : Procs → ℕ → Outcome (Unit {0})
lock_destroy s l = assert (not (l == 0)) >> assert (s.owner l == 0)

pub remove_process : Procs → ℕ → Outcome (ℕ × Procs)
remove_process s pid = do
  kill ← entry s pid
  p ← follow s kill
  lock_destroy s p.fd_lock
  done (0, record s { alive = update s.alive kill false; slot = update s.slot pid 0 })

-- The condition under which a used entry is taken: it has exited, and has no parent or one that
-- has exited.
pub reclaimable : Procs → Proc → Outcome Bool
reclaimable s p =
    if p.exit == 1
    then (if p.parent == 0 then done true else (follow s p.parent >>= λ q. done (q.exit == 1)))
    else done false

-- The loop that looks for an entry, with `n` entries left; 0 is "no place in proctable".
pub find_slot : ℕ → ℕ → Procs → Outcome (ℕ × Procs)
unfolding remove_process reclaimable
find_slot zero i s = done (0, s)
find_slot (suc n) i s =
    let rest = find_slot n (i + 1) s in
    entry s i >>= λ e.
    if e == 0
    then done (i, s)
    else (follow s e >>= λ p. reclaimable s p >>= λ free.
        if free then (remove_process s p.pid >>= λ (_, s'). done (i, s')) else rest)

-- What the allocations of one call return: the struct, what its memory held, and the locks and
-- condition variables.
pub record Fresh : Type 0 where
  pub address : ℕ
  pub junk : Proc
  pub exit_lock : ℕ
  pub exit_cv : ℕ
  pub proc_cv : ℕ
  pub fd_lock : ℕ

-- `new->PID = ...` and the other fields: a fault if `kmalloc` returned NULL. A new lock is free.
pub install : Procs → Fresh → Proc → ℕ → Outcome (ℕ × Procs)
install s f p my_pid =
    if f.address == 0
    then panic
    else done (
      f.address,
      record s {
        proc = update s.proc f.address p;
        alive = update s.alive f.address true;
        slot = update s.slot my_pid f.address;
        owner = update s.owner f.fd_lock 0;
      },
    )

pub add_process_new : Procs → Fresh → Outcome (ℕ × Procs)
unfolding find_slot install
add_process_new s f = find_slot (max_process - min_process) min_process s >>= λ (my_pid, s').
    if my_pid == 0
    then done (0, s')
    else install s' f
        (record f.junk {
          pid = my_pid;
          exit = 0;
          exit_lock = f.exit_lock;
          exit_cv = f.exit_cv;
          table = 0;
          proc_cv = f.proc_cv;
          fd_lock = f.fd_lock;
          parent = 0;
        })
        my_pid

-- The same with a parent, and `exit_lock` is left as it was.
pub add_process_child : Procs → Fresh → ℕ → Outcome (ℕ × Procs)
unfolding find_slot install
add_process_child s f parent =
    find_slot (max_process - min_process) min_process s >>= λ (my_pid, s').
    if my_pid == 0
    then done (0, s')
    else install s' f
        (record f.junk {
          pid = my_pid;
          exit = 0;
          exit_cv = f.exit_cv;
          table = 0;
          proc_cv = f.proc_cv;
          fd_lock = f.fd_lock;
          parent = parent;
        })
        my_pid

-- The test in the loop of `exit_process`: is entry `i`, holding `c`, a child of `e`?
pub is_child : Procs → ℕ → ℕ → ℕ → Outcome Bool
is_child s e i c =
    if c == 0
    then done false
    else (follow s c >>= λ p. follow s e >>= λ me.
        if (p.parent == 0) || (i == me.pid)
        then done false
        else (follow s p.parent >>= λ q. done (q.pid == me.pid)))

-- The loop: each child is told that its parent has exited.
pub orphan : ℕ → ℕ → ℕ → Procs → Outcome Procs
unfolding is_child
orphan zero i e s = done s
orphan (suc n) i e s = do
  c ← entry s i
  child ← is_child s e i c
  let s' =
      if child then record s { proc = update s.proc c (record (s.proc c) { parent = 0 }) } else s
  orphan n (i + 1) e s'

pub exit_process : Procs → ℕ → ℕ → Outcome (ℕ × Procs)
exit_process s pid exitcode = do
  e ← entry s pid
  p ← follow s e
  let s' = record s { proc = update s.proc e (record p { exit_code = exitcode; exit = 1 }) }
  if p.parent == 0
      then done (0, s')
      else (orphan (max_process - min_process) min_process e s' >>= λ t. done (0, t))

-- `process_get`. A negative pid, read as a register, is above `MAX_PROCESS`.
pub process_get : Procs → ℕ → Outcome ℕ
process_get s pid = if leb min_process pid && leb pid max_process then entry s pid else done 0
