-- ===== src/Threads/Switch.antt =====
-- `mi_switch`: the next thread is the head of the run queue.
use cs350_os.Base.{
  ℕ, List, ◌<◌, ◌≢◌, ◌≡◌, ◌∷◌, false, done, ◌++◌, some, [], lt→ltb, ◌∙◌, ap, refl, ne→==, ◌^◌, ◌⊎◌,
  none, panic, inr, eq→==, inl, update, arith,
}
use cs350_os.Kmalloc.{Kmalloc}
use cs350_os.Threads.{Threads, s_ready, scheduler, mi_switch, thread_sleep, make_runnable}
use cs350_os.Threads.Inv.{sleeping, ready}
use cs350_os.Array.Inv as ArrayInv
use cs350_os.Queue.Inv.{IsValid, full, after_put, after_put-IsValid, contents-after_put}
use cs350_os.Queue.Remove.{remhead_refines}
use cs350_os.Queue.Add.{roomy_add}
use cs350_os.Array.Edit.{array_add_append}

pub scheduler_head :
    (s : Threads) (x : ℕ) (xs : List ℕ)
    → 0 < s.spl
    → IsValid s.runqueue
    → ready s ≡ x ∷ xs
    → (s' : Threads) × (scheduler s ≡ done (some (x, s')))
      × (ready s' ≡ xs)
      × (s' ≡ record s { runqueue = s'.runqueue })
      × IsValid s'.runqueue
      × (s'.runqueue.size ≡ s.runqueue.size)
unfolding scheduler
scheduler_head s x xs off valid list =
    let (q, ran, valid', rest, size, busy, _) = (remhead_refines valid).1 x xs list in
    (record s { runqueue = q }, rw (lt→ltb _ _ off, busy, ran) refl, rest, refl, valid', size)

module _ (m : Kmalloc) (s : Threads) (x : ℕ) (xs : List ℕ) (real : s.current ≢ 0) (off : 0 < s.spl)
    (valid : IsValid s.runqueue) where
  -- With interrupts off and room in the run queue, a switch of a thread that stays ready puts it at
  -- the end of the run queue and runs the thread at the head: itself, if no other is ready.
  pub switch_ready :
      full s.runqueue ≡ false
      → ready s ++ (s.current ∷ []) ≡ x ∷ xs
      → (s' : Threads) × (mi_switch m s s_ready ≡ done (some s'))
        × (s'.current ≡ x)
        × (ready s' ≡ xs)
        × (sleeping s' ≡ sleeping s)
        × (s'.spl ≡ s.spl)
        × IsValid s'.runqueue
        × (s'.runqueue.size ≡ s.runqueue.size)
  unfolding mi_switch make_runnable
  switch_ready room list =
      let stashed : Threads = record s { current = 0; runqueue = after_put valid s.current } in
      let (s', ran, rest, frame, valid', size) =
        scheduler_head stashed x xs off (after_put-IsValid valid s.current)
          (contents-after_put valid s.current room ∙ list) in
      (
        record s' { current = x },
        rw (lt→ltb _ _ off, ne→== _ _ real, roomy_add m valid s.current room, ran) refl,
        refl,
        rest,
        ap sleeping frame,
        ap (λ u. u.spl) frame,
        valid',
        size,
      )

  -- `thread_sleep` of a thread outside of an interrupt handler, with another one ready: the thread is
  -- the last of the sleepers, with `addr` as the address it sleeps on, and the head of the run queue
  -- runs; or the allocator has no memory for the list of sleepers, and the kernel stops.
  pub thread_sleep_moves :
      (addr : ℕ)
      → s.in_interrupt ≡ 0
      → ready s ≡ x ∷ xs
      → ArrayInv.IsValid s.sleepers
      → s.sleepers.max < 2 ^ 27
      → ((s' : Threads) × (thread_sleep m s addr ≡ done (some s'))
          × (s'.current ≡ x)
          × (ready s' ≡ xs)
          × (sleeping s' ≡ sleeping s ++ (s.current ∷ []))
          × (s'.sleepaddr s.current ≡ addr))
        ⊎ ((bytes : ℕ) × (m.kmalloc bytes ≡ none) × (thread_sleep m s addr ≡ panic))
  unfolding thread_sleep mi_switch
  thread_sleep_moves addr calm list slots low = elim (array_add_append m slots s.current low) [
    | inr (bytes, no_mem, ran) ↦
        inr (bytes, no_mem, rw (eq→== _ _ calm, lt→ltb _ _ off, ne→== _ _ real, ran) refl)
    | inl (a, added, slots', appended) ↦
        let stashed : Threads = record s {
          current = 0;
          sleepers = a;
          sleepaddr = update s.sleepaddr s.current addr;
        } in
        let (s', ran, rest, frame, valid', size) = scheduler_head stashed x xs off valid list in
        inl (
          record s' { current = x },
          rw (eq→== _ _ calm, lt→ltb _ _ off, ne→== _ _ real, added, ran) refl,
          refl,
          rest,
          ap sleeping frame ∙ appended,
          ap (λ u. u.sleepaddr s.current) frame ∙ ground arith,
        )
  ]
