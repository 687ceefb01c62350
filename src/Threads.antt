-- ===== src/Threads.antt =====
-- kern/thread/scheduler.c, and of kern/thread/thread.c what puts threads to sleep, wakes them and
-- switches between them.
pub mod Inv
pub mod Wake
pub mod WakeN
pub mod Switch
pub mod Yield
mod Tests
use cs350_os.Base.{
  ℕ, Outcome, Option, assert, ◌>>=◌, panic, ltb, ◌==◌, done, update, suc, ◌>>◌, ◌+◌, if◌then◌else◌,
  none, ◌^◌, some, zero, ◌-◌, ◌%◌,
}
use cs350_os.Kmalloc.{Kmalloc}
use cs350_os.Array.{Array, array_getguy, array_add, array_remove}
use cs350_os.Queue.{Queue, empty, addtail, remhead, preallocate}

-- `curthread`, `curspl`, `in_interrupt`, the two lists of threads, the run queue, and the field `t_sleepaddr` of each
-- thread. A thread is its address, and 0 is NULL.
pub record Threads : Type 0 where
  pub current : ℕ
  pub spl : ℕ
  pub in_interrupt : ℕ
  pub sleepers : Array
  pub zombies : Array
  pub runqueue : Queue
  pub sleepaddr : ℕ → ℕ

-- `threadstate_t`
pub data State : Type 0 where
  s_run : State
  s_ready : State
  s_sleep : State
  s_zomb : State

-- `scheduler`: the next thread, or `none` where it calls `cpu_idle` and waits for an interrupt.
pub scheduler : Threads → Outcome (Option (ℕ × Threads))
scheduler s =
    assert (ltb 0 s.spl)
    >> (if empty s.runqueue
        then done none
        else (remhead s.runqueue >>= λ (t, q). done (some (t, record s { runqueue = q }))))

module _ (m : Kmalloc) where
  pub scheduler_preallocate : Threads → ℕ → Outcome (ℕ × Threads)
  scheduler_preallocate s nthreads =
      assert (ltb 0 s.spl)
      >> (preallocate m s.runqueue nthreads >>= λ (result, q).
          done (result, record s { runqueue = q }))

  pub make_runnable : Threads → ℕ → Outcome (ℕ × Threads)
  make_runnable s t =
      assert (ltb 0 s.spl)
      >> (addtail m s.runqueue t >>= λ (result, q). done (result, record s { runqueue = q }))

  -- The body of the loops over the sleepers for one that is woken: it is removed and made runnable.
  pub wake_one : Threads → ℕ → ℕ → Outcome Threads
  unfolding make_runnable
  wake_one s i t = array_remove s.sleepers i >>= λ a.
      make_runnable (record s { sleepers = a }) t >>= λ (result, s').
      assert (result == 0) >> done s'

  -- The loop of `thread_wakeup`, with at most `n` tests left.
  pub wake_from : ℕ → ℕ → ℕ → Threads → Outcome Threads
  wake_from zero i addr s = panic
  wake_from (suc n) i addr s =
      let skip = wake_from n (i + 1) addr s in
      if ltb i s.sleepers.num
      then (array_getguy s.sleepers i >>= λ t.
          if s.sleepaddr t == addr then (wake_one s i t >>= λ s'. wake_from n i addr s') else skip)
      else done s

  -- `thread_wakeup`. Each round leaves one thread less to look at.
  pub thread_wakeup : Threads → ℕ → Outcome Threads
  thread_wakeup s addr = assert (ltb 0 s.spl) >> wake_from (s.sleepers.num + 1) 0 addr s

  -- The loop of `thread_wakeup_n`, where `n` and `i` have been decremented when they are compared.
  pub wake_n_from : ℕ → ℕ → ℕ → ℕ → Threads → Outcome Threads
  wake_n_from zero i addr n s = panic
  wake_n_from (suc k) i addr n s =
      let skip = wake_n_from k (i + 1) addr n s in
      if ltb i s.sleepers.num
      then (array_getguy s.sleepers i >>= λ t.
          if s.sleepaddr t == addr
          then (wake_one s i t >>= λ s'.
              if (n + 2 ^ 32 - 1) % 2 ^ 32 == (i + 2 ^ 32 - 1) % 2 ^ 32
              then done s'
              else wake_n_from k i addr n s')
          else skip)
      else done s

  pub thread_wakeup_n : Threads → ℕ → ℕ → Outcome Threads
  thread_wakeup_n s addr n = assert (ltb 0 s.spl) >> wake_n_from (s.sleepers.num + 1) 0 addr n s

  -- `mi_switch` up to the machine's switch: the current thread is put on its list, and the next one is
  -- current; `none` while the machine idles.
  pub stash : Threads → ℕ → State → Outcome (ℕ × Threads)
  stash s cur s_ready = make_runnable s cur
  stash s cur s_sleep =
      array_add m s.sleepers cur >>= λ (result, a). done (result, record s { sleepers = a })
  stash s cur s_zomb =
      array_add m s.zombies cur >>= λ (result, a). done (result, record s { zombies = a })
  stash s cur s_run = panic

  pub mi_switch : Threads → State → Outcome (Option Threads)
  unfolding stash
  mi_switch s nextstate =
      assert (ltb 0 s.spl)
      >> (if s.current == 0
          then done (some s)
          else (stash (record s { current = 0 }) s.current nextstate >>= λ (result, s').
              assert (result == 0)
              >> (scheduler s' >>= λ found. elim found [
                | none ↦ done none
                | some (next, s'') ↦ done (some (record s'' { current = next }))
              ])))

  -- `thread_yield` until the switch: `splhigh` sets the level to 15.
  pub thread_yield : Threads → Outcome (Option Threads)
  thread_yield s = mi_switch (record s { spl = 15 }) s_ready

  -- `thread_sleep` until the switch.
  pub thread_sleep : Threads → ℕ → Outcome (Option Threads)
  thread_sleep s addr =
      assert (s.in_interrupt == 0)
      >> mi_switch (record s { sleepaddr = update s.sleepaddr s.current addr }) s_sleep

-- The loop of `thread_hassleepers`, with at most `n` tests left.
pub sleeper_from : ℕ → ℕ → ℕ → Threads → Outcome ℕ
sleeper_from zero i addr s = panic
sleeper_from (suc n) i addr s =
    let skip = sleeper_from n (i + 1) addr s in
    if ltb i s.sleepers.num
    then (array_getguy s.sleepers i >>= λ t. if s.sleepaddr t == addr then done 1 else skip)
    else done 0

pub thread_hassleepers : Threads → ℕ → Outcome ℕ
thread_hassleepers s addr = assert (ltb 0 s.spl) >> sleeper_from (s.sleepers.num + 1) 0 addr s
