-- ===== src/Synch/Inv.antt =====
-- What holds of the locks and semaphores in every interleaving.
use mathlib.Core.Path.{subst}
use cs350_os.Base.{
  ℕ, ◌≡◌, if◌then◌else◌, ◌≢◌, true, arith, Bool-cases, ◌+◌, ◌==◌, inl, inr, done, test_held,
  assert_held, Bool, ==→eq, map_done, assert_then, sym, refl, ◌∙◌,
}
use cs350_os.Synch.{
  World, Sleep, awake, on_sem, on_lock, on_cv, sleeps_on_sem, sleeps_on_lock, p_section,
  acquire_section, v_section, lock_release, wait_sleep, cv_signal, cv_broadcast, wait_begin,
}
use cs350_os.Synch.Step.{
  Step, call_p, on_p, call_v, call_acquire, on_acquire, call_release, call_wait, on_gap, on_wait,
  call_signal, call_broadcast, Reach, start, later,
}

-- The owner of a lock is the thread that holds it, and a thread sleeps on a lock only while it is
-- owned, and on a semaphore only while its count is 0. A count is what it was at the start, less what `P`
-- took and more what `V` gave.
pub record IsSafe (initial : ℕ → ℕ) (w : World) : Type 0 where
  pub owned : (t l : ℕ) → w.holds t l ≡ true → (w.owner l ≡ t) × (t ≢ 0)
  pub held : (l : ℕ) → w.owner l ≢ 0 → w.holds (w.owner l) l ≡ true
  pub lock_sleep : (t l : ℕ) → w.sleep t ≡ on_lock l → w.owner l ≢ 0
  pub sem_sleep : (t s : ℕ) → w.sleep t ≡ on_sem s → w.count s ≡ 0
  pub counted : (s : ℕ) → w.count s + w.taken s ≡ initial s + w.given s

-- Who sleeps after a wakeup slept before it, on something else.
still_lock :
    (x : Sleep) (l k : ℕ)
    → (if sleeps_on_lock x l then awake else x) ≡ on_lock k
    → (x ≡ on_lock k) × (k ≢ l)
still_lock awake l k e = (e, ground arith)
still_lock (on_sem a) l k e = (e, ground arith)
still_lock (on_cv a) l k e = (e, ground arith)
still_lock (on_lock a) l k e = (ground arith, ground arith)

still_other :
    (x : Sleep) (l s : ℕ) → (if sleeps_on_lock x l then awake else x) ≡ on_sem s → x ≡ on_sem s
still_other awake l s e = e
still_other (on_sem a) l s e = e
still_other (on_cv a) l s e = e
still_other (on_lock a) l s e = ground arith

still_sem :
    (x : Sleep) (s k : ℕ)
    → (if sleeps_on_sem x s then awake else x) ≡ on_sem k
    → (x ≡ on_sem k) × (k ≢ s)
still_sem awake s k e = (e, ground arith)
still_sem (on_sem a) s k e = (ground arith, ground arith)
still_sem (on_cv a) s k e = (e, ground arith)
still_sem (on_lock a) s k e = (e, ground arith)

woken_lock :
    (x : Sleep) (s l : ℕ) → (if sleeps_on_sem x s then awake else x) ≡ on_lock l → x ≡ on_lock l
woken_lock awake s l e = e
woken_lock (on_sem a) s l e = ground arith
woken_lock (on_cv a) s l e = e
woken_lock (on_lock a) s l e = e

module _ {initial : ℕ → ℕ} {w : World} (safe : IsSafe initial w) (t : ℕ) (real : t ≢ 0) where
  open safe use {owned, held, lock_sleep, sem_sleep, counted}

  p_section-IsSafe : (s : ℕ) → IsSafe initial (p_section w t s)
  unfolding p_section
  p_section-IsSafe s = elim (Bool-cases (w.count s == 0)) [
    | inl e ↦ rw e (record {
      owned = owned;
      held = held;
      lock_sleep = λ u l h. ground (arith, lock_sleep u l);
      sem_sleep = λ u k h. ground (arith, sem_sleep u k);
      counted = counted;
    })
    | inr e ↦ rw e (record {
      owned = owned;
      held = held;
      lock_sleep = lock_sleep;
      sem_sleep = λ u k h. ground (arith, sem_sleep u k);
      counted = λ k. ground (arith, counted k);
    })
  ]

  acquire_section-IsSafe : (l : ℕ) → IsSafe initial (acquire_section w t l)
  unfolding acquire_section
  acquire_section-IsSafe l = elim (Bool-cases (w.owner l == 0)) [
    | inl e ↦ rw e (record {
      owned = λ u k h. ground (arith, owned u k);
      held = λ k h. ground (arith, held k);
      lock_sleep = λ u k h. ground (arith, lock_sleep u k);
      sem_sleep = sem_sleep;
      counted = counted;
    })
    | inr e ↦ rw e (record {
      owned = owned;
      held = held;
      lock_sleep = λ u k h. ground (arith, lock_sleep u k);
      sem_sleep = λ u k h. ground (arith, sem_sleep u k);
      counted = counted;
    })
  ]

  v_section-IsSafe : (s : ℕ) {w' : World} → v_section w s ≡ done w' → IsSafe initial w'
  unfolding v_section
  v_section-IsSafe s {w'} ran = subst (IsSafe initial) (test_held _ ran).1 (record {
    owned = owned;
    held = held;
    lock_sleep = λ u l h. lock_sleep u l (woken_lock (w.sleep u) s l h);
    sem_sleep = λ u k h. ground (arith, sem_sleep u k, still_sem (w.sleep u) s k h);
    counted = λ k. ground (arith, counted k);
  })

  lock_release-IsSafe : (l : ℕ) {w' : World} → lock_release w t l ≡ done w' → IsSafe initial w'
  unfolding lock_release
  lock_release-IsSafe l {w'} ran =
      let (mine, same) = assert_held _ ran in
      let owner : t ≡ w.owner l = ==→eq _ _ mine in
      subst (IsSafe initial) same (record {
        owned = λ u k h. ground (arith, owned u k);
        held = λ k h. ground (arith, held k);
        lock_sleep = λ u k h. ground (arith, lock_sleep u k, still_lock (w.sleep u) l k h);
        sem_sleep = λ u k h. sem_sleep u k (still_other (w.sleep u) l k h);
        counted = counted;
      })

  wait_begin-IsSafe : (c l : ℕ) {w' : World} → wait_begin w t c l ≡ done w' → IsSafe initial w'
  unfolding wait_begin
  wait_begin-IsSafe c l {w'} ran =
      let (v, released, same) = map_done _ (lock_release w t l) (assert_then _ _ ran).1 in
      let safe' = lock_release-IsSafe l released in
      subst (IsSafe initial) same (record {
        owned = safe'.owned;
        held = safe'.held;
        lock_sleep = safe'.lock_sleep;
        sem_sleep = safe'.sem_sleep;
        counted = safe'.counted;
      })

  wait_sleep-IsSafe : (c l : ℕ) → IsSafe initial (wait_sleep w t c l)
  unfolding wait_sleep
  wait_sleep-IsSafe c l = record {
    owned = owned;
    held = held;
    lock_sleep = λ u k h. ground (arith, lock_sleep u k);
    sem_sleep = λ u k h. ground (arith, sem_sleep u k);
    counted = counted;
  }

  cv_signal-IsSafe :
      (c l : ℕ) (woken : ℕ → Bool) {w' : World}
      → cv_signal w t c l woken ≡ done w'
      → IsSafe initial w'
  unfolding cv_signal
  cv_signal-IsSafe c l woken {w'} ran = subst (IsSafe initial) (assert_held _ ran).1 (record {
    owned = owned;
    held = held;
    lock_sleep = λ u k h. ground (arith, lock_sleep u k);
    sem_sleep = λ u k h. ground (arith, sem_sleep u k);
    counted = counted;
  })

  cv_broadcast-IsSafe : (c l : ℕ) {w' : World} → cv_broadcast w t c l ≡ done w' → IsSafe initial w'
  unfolding cv_broadcast
  cv_broadcast-IsSafe c l {w'} ran = subst (IsSafe initial) (assert_held _ ran).1 (record {
    owned = owned;
    held = held;
    lock_sleep = λ u k h. ground (arith, lock_sleep u k);
    sem_sleep = λ u k h. ground (arith, sem_sleep u k);
    counted = counted;
  })

Step-IsSafe : {initial : ℕ → ℕ} {w w' : World} → IsSafe initial w → Step w w' → IsSafe initial w'
Step-IsSafe safe (call_p t s real up at) = p_section-IsSafe safe t real s
Step-IsSafe safe (on_p t s real up at) = p_section-IsSafe safe t real s
Step-IsSafe safe (call_v t s real up at ran) = v_section-IsSafe safe t real s ran
Step-IsSafe safe (call_acquire t l real up at) = acquire_section-IsSafe safe t real l
Step-IsSafe safe (on_acquire t l real up at) = acquire_section-IsSafe safe t real l
Step-IsSafe safe (call_release t l real up at ran) = lock_release-IsSafe safe t real l ran
Step-IsSafe safe (call_wait t c l real up at ran) = wait_begin-IsSafe safe t real c l ran
Step-IsSafe safe (on_gap t c l real up at) = wait_sleep-IsSafe safe t real c l
Step-IsSafe safe (on_wait t c l real up at) = acquire_section-IsSafe safe t real l
Step-IsSafe safe (call_signal t c l woken real up at ran) =
    cv_signal-IsSafe safe t real c l woken ran
Step-IsSafe safe (call_broadcast t c l real up at ran) = cv_broadcast-IsSafe safe t real c l ran

Reach-IsSafe : {initial : ℕ → ℕ} {w : World} → Reach initial w → IsSafe initial w
Reach-IsSafe start = record {
  owned = λ t l e. absurd cc;
  held = λ l ne. absurd (ne refl);
  lock_sleep = λ t l e. absurd cc;
  sem_sleep = λ t s e. absurd cc;
  counted = λ s. refl;
}
Reach-IsSafe (later before step) = Step-IsSafe (Reach-IsSafe before) step

-- In every interleaving of threads that call the functions of synch.c: two threads that have acquired a
-- lock and not released it are one, and that is the lock's owner; a thread sleeps on a lock only while
-- some thread holds it, and on a semaphore only while its count is 0; and the count of a semaphore is
-- its initial count, less the calls of `P` that have returned, more those of `V`.
pub locks_exclude :
    {initial : ℕ → ℕ} {w : World}
    → Reach initial w
    → ((t u l : ℕ) → w.holds t l ≡ true → w.holds u l ≡ true → (t ≡ u) × (w.owner l ≡ t))
      × ((t l : ℕ) → w.sleep t ≡ on_lock l → w.holds (w.owner l) l ≡ true)
      × ((t s : ℕ) → w.sleep t ≡ on_sem s → w.count s ≡ 0)
      × ((s : ℕ) → w.count s + w.taken s ≡ initial s + w.given s)
locks_exclude reached =
    let safe = Reach-IsSafe reached in
    (
      λ t u l a b. (sym (safe.owned t l a).0 ∙ (safe.owned u l b).0, (safe.owned t l a).0),
      λ t l h. safe.held l (safe.lock_sleep t l h),
      safe.sem_sleep,
      safe.counted,
    )
