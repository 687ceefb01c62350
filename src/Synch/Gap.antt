-- ===== src/Synch/Gap.antt =====
-- `cv_wait` releases the lock, and then turns interrupts off and sleeps: what happens in between.
use mathlib.Core.Path.{subst}
use cs350_os.Base.{ℕ, ◌≡◌, update, if◌then◌else◌, ◌≢◌, false, true, done, arith, refl}
use cs350_os.Synch.{
  World, Sleep, awake, on_cv, outside, in_gap, sleeps_on_cv, sleeps_on_lock, wake_lock,
  acquire_section, lock_release, wait_begin, wait_sleep, cv_broadcast,
}
use cs350_os.Synch.Step.{Step, call_acquire, call_release, call_wait, on_gap, call_broadcast}

still_awake_lock :
    (x : Sleep) (l : ℕ) → x ≡ awake → (if sleeps_on_lock x l then awake else x) ≡ awake
still_awake_lock x l e = rw e refl

still_awake_cv : (x : Sleep) (c : ℕ) → x ≡ awake → (if sleeps_on_cv x c then awake else x) ≡ awake
still_awake_cv x c e = rw e refl

module _ (w : World) (t u c l : ℕ) where
  -- After the release of `l` by `cv_wait` of `t`.
  abbrev gap : World
  gap = record w {
    owner = update w.owner l 0;
    sleep = wake_lock w l;
    holds = update w.holds t (update (w.holds t) l false);
    pc = update w.pc t (in_gap c l);
  }

  -- After `u` has acquired `l`.
  abbrev entered : World
  entered = record gap {
    owner = update gap.owner l u;
    pc = update gap.pc u outside;
    holds = update gap.holds u (update (gap.holds u) l true);
  }

  -- After `cv_broadcast` by `u`.
  abbrev broadcast : World
  broadcast = record entered {
    sleep = λ v. if sleeps_on_cv (entered.sleep v) c then awake else entered.sleep v;
  }

  -- After the release by `u`.
  abbrev left : World
  left = record broadcast {
    owner = update broadcast.owner l 0;
    sleep = wake_lock broadcast l;
    holds = update broadcast.holds u (update (broadcast.holds u) l false);
  }

  module _ (apart : t ≢ u) (real : u ≢ 0) (mine : w.owner l ≡ t) (up_t : w.sleep t ≡ awake)
      (up_u : w.sleep u ≡ awake) where
    run_wait : wait_begin w t c l ≡ done gap
    unfolding wait_begin
    run_wait = ground (arith, mine)

    run_enter : acquire_section gap u l ≡ entered
    unfolding acquire_section
    run_enter = ground arith

    run_broadcast : cv_broadcast entered u c l ≡ done broadcast
    unfolding cv_broadcast
    run_broadcast = ground arith

    run_leave : lock_release broadcast u l ≡ done left
    unfolding lock_release
    run_leave = ground arith

    awake_left : (v : ℕ) → w.sleep v ≡ awake → left.sleep v ≡ awake
    awake_left v e = still_awake_lock _ l (still_awake_cv _ c (still_awake_lock _ l e))

-- Let thread `t` hold lock `l` and thread `u` be another, both awake and outside. There is a run in which
-- `t` begins `cv_wait`, then `u` acquires `l`, calls `cv_broadcast` on the same condition variable and
-- releases `l`, and then `t` goes to sleep: the wakeup of a signal that is sent after the lock was
-- released is lost.
pub broadcast_in_gap_lost :
    (w : World) (t u c l : ℕ)
    → t ≢ u
    → t ≢ 0
    → u ≢ 0
    → w.owner l ≡ t
    → (w.sleep t ≡ awake) × (w.sleep u ≡ awake)
    → (w.pc t ≡ outside) × (w.pc u ≡ outside)
    → (w₁ w₂ w₃ w₄ w₅ : World) × (Step w w₁ × (wait_begin w t c l ≡ done w₁))
      × (Step w₁ w₂ × (acquire_section w₁ u l ≡ w₂))
      × (Step w₂ w₃ × (cv_broadcast w₂ u c l ≡ done w₃))
      × (Step w₃ w₄ × (lock_release w₃ u l ≡ done w₄))
      × Step w₄ w₅
      × (w₅.sleep t ≡ on_cv c)
unfolding wait_sleep
broadcast_in_gap_lost w t u c l apart real_t real_u mine (up_t, up_u) (at_t, at_u) =
    let waits = run_wait w t u c l apart real_u mine up_t up_u in
    let enters = run_enter w t u c l apart real_u mine up_t up_u in
    let wakes = run_broadcast w t u c l apart real_u mine up_t up_u in
    let leaves = run_leave w t u c l apart real_u mine up_t up_u in
    let up : (v : ℕ) → w.sleep v ≡ awake → (gap w t u c l).sleep v ≡ awake =
      λ v e. still_awake_lock _ l e in
    (
      gap w t u c l,
      entered w t u c l,
      broadcast w t u c l,
      left w t u c l,
      wait_sleep (left w t u c l) t c l,
      (call_wait t c l real_t up_t at_t waits, waits),
      (
        subst (Step (gap w t u c l)) enters
            (call_acquire u l real_u (up u up_u) (ground (arith, at_u))),
        enters,
      ),
      (call_broadcast u c l real_u (up u up_u) (ground arith) wakes, wakes),
      (call_release u l real_u (still_awake_cv _ c (up u up_u)) (ground arith) leaves, leaves),
      on_gap t c l real_t (awake_left w t u c l apart real_u mine up_t up_u t up_t) (ground arith),
      ground arith,
    )
