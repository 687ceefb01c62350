-- ===== src/Synch/Step.antt =====
-- The threads of the kernel, interleaved in any order.
use cs350_os.Base.{ℕ, ◌≢◌, false, ◌≡◌, done, Bool}
use cs350_os.Synch.{
  World, awake, outside, acquiring, taking, in_gap, in_wait, p_section, v_section, acquire_section,
  lock_release, wait_begin, wait_sleep, cv_signal, cv_broadcast,
}

-- A step of thread `t`, which is not NULL and awake. After its sleep on the condition variable, `cv_wait`
-- goes on with `lock_acquire`.
pub data Step (w : World) : World → Type 0 where
  call_p : (t s : ℕ) → t ≢ 0 → w.sleep t ≡ awake → w.pc t ≡ outside → Step w (p_section w t s)
  on_p : (t s : ℕ) → t ≢ 0 → w.sleep t ≡ awake → w.pc t ≡ taking s → Step w (p_section w t s)
  call_v :
      (t s : ℕ) {w' : World}
      → t ≢ 0
      → w.sleep t ≡ awake
      → w.pc t ≡ outside
      → v_section w s ≡ done w'
      → Step w w'
  call_acquire :
      (t l : ℕ) → t ≢ 0 → w.sleep t ≡ awake → w.pc t ≡ outside → Step w (acquire_section w t l)
  on_acquire :
      (t l : ℕ) → t ≢ 0 → w.sleep t ≡ awake → w.pc t ≡ acquiring l → Step w (acquire_section w t l)
  call_release :
      (t l : ℕ) {w' : World}
      → t ≢ 0
      → w.sleep t ≡ awake
      → w.pc t ≡ outside
      → lock_release w t l ≡ done w'
      → Step w w'
  call_wait :
      (t c l : ℕ) {w' : World}
      → t ≢ 0
      → w.sleep t ≡ awake
      → w.pc t ≡ outside
      → wait_begin w t c l ≡ done w'
      → Step w w'
  on_gap :
      (t c l : ℕ) → t ≢ 0 → w.sleep t ≡ awake → w.pc t ≡ in_gap c l → Step w (wait_sleep w t c l)
  on_wait :
      (t c l : ℕ)
      → t ≢ 0
      → w.sleep t ≡ awake
      → w.pc t ≡ in_wait c l
      → Step w (acquire_section w t l)
  call_signal :
      (t c l : ℕ) (woken : ℕ → Bool) {w' : World}
      → t ≢ 0
      → w.sleep t ≡ awake
      → w.pc t ≡ outside
      → cv_signal w t c l woken ≡ done w'
      → Step w w'
  call_broadcast :
      (t c l : ℕ) {w' : World}
      → t ≢ 0
      → w.sleep t ≡ awake
      → w.pc t ≡ outside
      → cv_broadcast w t c l ≡ done w'
      → Step w w'

-- The start, where the semaphores have the counts with which they were created.
abbrev pub init : (ℕ → ℕ) → World
init initial = record {
  owner = λ l. 0;
  count = initial;
  sleep = λ t. awake;
  pc = λ t. outside;
  holds = λ t l. false;
  taken = λ s. 0;
  given = λ s. 0;
}

pub data Reach (initial : ℕ → ℕ) : World → Type 0 where
  start : Reach initial (init initial)
  later : {w w' : World} → Reach initial w → Step w w' → Reach initial w'
