-- ===== src/Synch/Tests.antt =====
-- Two threads and a lock, and the theorems at them.
use cs350_os.Base.{ℕ, arith, ◌≡◌, update, true, done, refl, ◌+◌}
use cs350_os.Synch.{
  World, on_sem, on_lock, on_cv, acquire_section, lock_release, wait_begin, cv_broadcast,
}
use cs350_os.Synch.Step.{Step, call_acquire, init, Reach, start, later}
use cs350_os.Synch.Inv.{locks_exclude}
use cs350_os.Synch.Gap.{broadcast_in_gap_lost}

-- Semaphores start at 1.
abbrev ones : ℕ → ℕ
ones s = 1

-- Thread 1 acquires the lock 7, and thread 2 then waits for it.
abbrev contended : World
contended = acquire_section (acquire_section (init ones) 1 7) 2 7

contended-Reach : Reach ones contended
unfolding acquire_section
contended-Reach =
    later (later start (call_acquire 1 7 (omega arith) refl refl))
      (call_acquire 2 7 (omega arith) refl refl)

locks_exclude_example :
    ((t u l : ℕ)
      → contended.holds t l ≡ true
      → contended.holds u l ≡ true
      → (t ≡ u) × (contended.owner l ≡ t))
    × ((t l : ℕ) → contended.sleep t ≡ on_lock l → contended.holds (contended.owner l) l ≡ true)
    × ((t s : ℕ) → contended.sleep t ≡ on_sem s → contended.count s ≡ 0)
    × ((s : ℕ) → contended.count s + contended.taken s ≡ ones s + contended.given s)
locks_exclude_example = locks_exclude contended-Reach

-- Thread 1 holds the lock 7.
abbrev held_world : World
held_world = record (init ones) { owner = update (λ l. 0) 7 1 }

broadcast_in_gap_lost_example :
    (w₁ w₂ w₃ w₄ w₅ : World) × (Step held_world w₁ × (wait_begin held_world 1 90 7 ≡ done w₁))
    × (Step w₁ w₂ × (acquire_section w₁ 2 7 ≡ w₂))
    × (Step w₂ w₃ × (cv_broadcast w₂ 2 90 7 ≡ done w₃))
    × (Step w₃ w₄ × (lock_release w₃ 2 7 ≡ done w₄))
    × Step w₄ w₅
    × (w₅.sleep 1 ≡ on_cv 90)
broadcast_in_gap_lost_example =
    broadcast_in_gap_lost held_world 1 2 90 7 (omega arith) (omega arith) (omega arith) refl
      (refl, refl) (refl, refl)
