-- ===== src/Threads/WakeN.antt =====
-- `thread_wakeup_n`, which `cv_signal` calls to wake one thread, and `thread_hassleepers`.
use cs350_os.Base.{
  ◌∷◌, [], zero, suc, ℕ, List, ◌≤◌, ◌<◌, ◌^◌, length, ◌≡◌, done, ◌++◌, arith, ◌+◌, lt→ltb, refl,
  sym, ap, ◌∙◌, ◌==◌, true, ◌-◌, ◌%◌, false, ne→==,
}
use mathlib.Core.List.{append_assoc, append-nil}
use cs350_os.Kmalloc.{Kmalloc}
use cs350_os.Threads.{Threads, wake_n_from, thread_wakeup_n}
use cs350_os.Threads.Inv.{sleeping, ready, HasRoom, length-sleeping, look, wake_one_lem}
use cs350_os.Threads.Wake.{at_end}

-- Every thread of the list sleeps on `addr`.
abbrev pub AllWait : (ℕ → ℕ) → ℕ → List ℕ → Type 0
AllWait f addr [] = Unit
AllWait f addr (t ∷ ts) = (f t ≡ addr) × AllWait f addr ts

module _ (m : Kmalloc) (f : ℕ → ℕ) (addr n : ℕ) (some_n : 1 ≤ n) (low : n < 2 ^ 32) where
  -- The loop never leaves index 0, and compares it, decremented, with a number that is not negative.
  wake_n_from_lem :
      (zs : List ℕ) (k : ℕ) (s : Threads)
      → length zs < k
      → s.sleepaddr ≡ f
      → AllWait f addr zs
      → sleeping s ≡ zs
      → HasRoom s (length zs)
      → (s' : Threads) × (wake_n_from m k 0 addr n s ≡ done s')
        × (sleeping s' ≡ [])
        × (ready s' ≡ ready s ++ zs)
  unfolding wake_n_from
  wake_n_from_lem zs zero s enough table all list ok = absurd (omega arith)
  wake_n_from_lem [] (suc k) s enough table all list ok =
      (s, rw (at_end m f addr [] s zero ok list) refl, list, sym (append-nil (ready s)))
  wake_n_from_lem (z ∷ zs) (suc k) s enough table (here, all) list ok =
      let (inside, got) = look m [] zs z (length zs) ok list in
      let (s₁, ran, ok₁, list₁, one, frame) = wake_one_lem m [] zs z (length zs) ok list in
      let (s', rest, none_left, all_ready) =
        wake_n_from_lem zs k s₁ (omega arith) (ap (λ u. u.sleepaddr) frame ∙ table) all list₁ ok₁ in
      let tested : (s.sleepaddr z == addr) ≡ true = ground (arith, ap (λ g. g z) table, here) in
      let goes_on : ((n + 2 ^ 32 - 1) % 2 ^ 32 == (0 + 2 ^ 32 - 1) % 2 ^ 32) ≡ false =
        ne→== _ _ (omega arith) in
      (
        s',
        rw (inside, got, tested, ran, goes_on) rest,
        none_left,
        all_ready ∙ ap (λ q. q ++ zs) one ∙ append_assoc (ready s) (z ∷ []) zs,
      )

-- Let interrupts be off and the run queue have room for every sleeper. If every sleeper sleeps on
-- `addr`, then `thread_wakeup_n` wakes all of them, however small its positive count is: also for the
-- 1 that `cv_signal` passes.
pub thread_wakeup_n_all :
    (m : Kmalloc) (s : Threads) (addr n : ℕ)
    → 1 ≤ n
    → n < 2 ^ 32
    → AllWait s.sleepaddr addr (sleeping s)
    → HasRoom s (length (sleeping s))
    → (s' : Threads) × (thread_wakeup_n m s addr n ≡ done s')
      × (sleeping s' ≡ [])
      × (ready s' ≡ ready s ++ sleeping s)
unfolding thread_wakeup_n
thread_wakeup_n_all m s addr n some_n low all ok =
    let (s', ran, none_left, all_ready) =
      wake_n_from_lem m s.sleepaddr addr n some_n low (sleeping s) (s.sleepers.num + 1) s
        (omega (arith, length-sleeping ok)) refl all refl ok in
    (s', rw (lt→ltb _ _ ok.off) ran, none_left, all_ready)
