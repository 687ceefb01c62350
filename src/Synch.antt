-- ===== src/Synch.antt =====
-- kern/thread/synch.c: semaphores, locks and condition variables, as atomic sections that the threads
-- interleave. Interrupts are off from `splhigh` to `splx` or to the switch in `thread_sleep`, so that a
-- section ends where a thread sleeps or returns.
pub mod Step
pub mod Inv
pub mod Gap
mod Tests
use cs350_os.Base.{
  ℕ, Bool, if◌then◌else◌, Outcome, update, ◌==◌, ltb, assert, false, ◌-◌, ◌+◌, true, ◌>>◌, ◌^◌,
  done, ◌>>=◌, panic, ◌&&◌,
}

-- What a thread sleeps on. The structs have different addresses, whichever kind they are.
pub data Sleep : Type 0 where
  awake : Sleep
  on_sem : ℕ → Sleep
  on_lock : ℕ → Sleep
  on_cv : ℕ → Sleep

-- Where a thread is: in none of the functions below, in the loop of `lock_acquire`, in that of `P`,
-- in `cv_wait` between the release and the sleep, or in its sleep.
pub data Pc : Type 0 where
  outside : Pc
  acquiring : ℕ → Pc
  taking : ℕ → Pc
  in_gap : ℕ → ℕ → Pc
  in_wait : ℕ → ℕ → Pc

-- The field `myOwner` of each lock (0 is NULL), the `count` of each semaphore, and each thread. The
-- last three are not in the code: which locks a thread has acquired and not released, and how often `P`
-- and `V` have returned.
pub record World : Type 0 where
  pub owner : ℕ → ℕ
  pub count : ℕ → ℕ
  pub sleep : ℕ → Sleep
  pub pc : ℕ → Pc
  pub holds : ℕ → ℕ → Bool
  pub taken : ℕ → ℕ
  pub given : ℕ → ℕ

abbrev pub sleeps_on_sem : Sleep → ℕ → Bool
sleeps_on_sem (on_sem a) s = a == s
sleeps_on_sem _ s = false

abbrev pub sleeps_on_lock : Sleep → ℕ → Bool
sleeps_on_lock (on_lock a) l = a == l
sleeps_on_lock _ l = false

abbrev pub sleeps_on_cv : Sleep → ℕ → Bool
sleeps_on_cv (on_cv a) c = a == c
sleeps_on_cv _ c = false

-- `thread_wakeup` on the address of a semaphore, and of a lock.
abbrev pub wake_sem : World → ℕ → ℕ → Sleep
wake_sem w s t = if sleeps_on_sem (w.sleep t) s then awake else w.sleep t

abbrev pub wake_lock : World → ℕ → ℕ → Sleep
wake_lock w l t = if sleeps_on_lock (w.sleep t) l then awake else w.sleep t

-- The section of `P` by `t`, from the test of its loop on.
pub p_section : World → ℕ → ℕ → World
p_section w t s =
    if w.count s == 0
    then record w { sleep = update w.sleep t (on_sem s); pc = update w.pc t (taking s) }
    else record w {
      count = update w.count s (w.count s - 1);
      pc = update w.pc t outside;
      taken = update w.taken s (w.taken s + 1);
    }

-- `V`. The count is an int: past its largest value the assertion fails.
pub v_section : World → ℕ → Outcome World
v_section w s =
    if ltb (w.count s + 1) (2 ^ 31)
    then done (record w {
      count = update w.count s (w.count s + 1);
      sleep = wake_sem w s;
      given = update w.given s (w.given s + 1);
    })
    else panic

-- The section of `lock_acquire` by `t`, from the test of its loop on.
pub acquire_section : World → ℕ → ℕ → World
acquire_section w t l =
    if w.owner l == 0
    then record w {
      owner = update w.owner l t;
      pc = update w.pc t outside;
      holds = update w.holds t (update (w.holds t) l true);
    }
    else record w { sleep = update w.sleep t (on_lock l); pc = update w.pc t (acquiring l) }

-- `lock_release` by `t`, with `lock_do_i_hold`.
pub lock_do_i_hold : World → ℕ → ℕ → Bool
lock_do_i_hold w t l = t == w.owner l

pub lock_release : World → ℕ → ℕ → Outcome World
unfolding lock_do_i_hold
lock_release w t l =
    assert (lock_do_i_hold w t l)
    >> done (record w {
      owner = update w.owner l 0;
      sleep = wake_lock w l;
      holds = update w.holds t (update (w.holds t) l false);
    })

-- `cv_wait` by `t` up to the `splhigh` after the release.
pub wait_begin : World → ℕ → ℕ → ℕ → Outcome World
unfolding lock_do_i_hold lock_release
wait_begin w t c l =
    assert (lock_do_i_hold w t l)
    >> (lock_release w t l >>= λ w'. done (record w' { pc = update w'.pc t (in_gap c l) }))

-- The section that sleeps on the condition variable.
pub wait_sleep : World → ℕ → ℕ → ℕ → World
wait_sleep w t c l = record w {
  sleep = update w.sleep t (on_cv c);
  pc = update w.pc t (in_wait c l);
}

-- `cv_signal` and `cv_broadcast` by `t`, which holds `l`: of the threads that sleep on `c`, those in
-- `woken` are made runnable; for `cv_broadcast` that is each of them.
pub cv_signal : World → ℕ → ℕ → ℕ → (ℕ → Bool) → Outcome World
unfolding lock_do_i_hold
cv_signal w t c l woken =
    assert (lock_do_i_hold w t l)
    >> done (record w {
      sleep = λ u. if sleeps_on_cv (w.sleep u) c && woken u then awake else w.sleep u;
    })

pub cv_broadcast : World → ℕ → ℕ → ℕ → Outcome World
unfolding lock_do_i_hold
cv_broadcast w t c l =
    assert (lock_do_i_hold w t l)
    >> done (record w { sleep = λ u. if sleeps_on_cv (w.sleep u) c then awake else w.sleep u })
