-- ===== src/Process/Exit.antt =====
-- `exit_process` marks a process and tells its children.
use cs350_os.Base.{ℕ, update, ◌≡◌, arith, if◌then◌else◌, ◌∙◌, ap, ◌≢◌, ◌==◌, done}
use cs350_os.Process.{Proc, Procs, exit_process}
use cs350_os.Process.Inv.{Used, at, IsValid, Childless}
use cs350_os.Process.Orphan.{IsLinked, Orphaned, orphan-Orphaned}

abbrev pub marked : Procs → ℕ → ℕ → Procs
marked s k code = record s {
  proc = update s.proc (s.slot k) (record (at s k) { exit_code = code; exit = 1 });
}

-- What `exit_process` of entry `k` leaves of the struct of entry `j`.
abbrev pub after_exit : Procs → ℕ → ℕ → ℕ → Proc
after_exit s k code j =
    if j == k
    then record (at s k) { exit_code = code; exit = 1 }
    else (if (at s j).parent == s.slot k then record (at s j) { parent = 0 } else at s j)

module _ {s : Procs} (valid : IsValid s) (k : ℕ) (used : Used s k) (code : ℕ) where
  open valid use {null, live, named, locked, no_self, parent_used, parent_runs}

  sole : (i j : ℕ) → Used s i → Used s j → s.slot i ≡ s.slot j → i ≡ j
  sole i j ui uj e = ground (arith, named i ui, named j uj)

  marked-at :
      (j : ℕ)
      → Used s j
      → at (marked s k code) j
        ≡ (if j == k then record (at s k) { exit_code = code; exit = 1 } else at s j)
  marked-at j u = ground (arith, sole j k u used)

  marked-IsLinked : IsLinked (marked s k code)
  marked-IsLinked = record {
    live = live;
    named = λ j u. ground (arith, named j u, named k used);
    parent_used = λ j u p. ground (arith, parent_used j u, named k used);
  }

  exit_at :
      (t : Procs)
      → Orphaned (marked s k code) k 1 99 t
      → (j : ℕ) → Used s j
      → at t j ≡ after_exit s k code j
  exit_at t o j u = ground (arith, o.structs j u, marked-at j u, no_self k used)

  module _ (t : Procs) (o : Orphaned (marked s k code) k 1 99 t) where
    slot_same : (j : ℕ) → t.slot j ≡ s.slot j
    slot_same j = ap (λ f. f j) o.slots

    was : (j : ℕ) → Used t j → Used s j
    was j u = (u.0, u.1, λ e. u.2 (slot_same j ∙ e))

    at_same : (j : ℕ) → Used t j → at t j ≡ after_exit s k code j
    at_same j u = exit_at t o j (was j u)

    -- The index of the entry that the struct of entry `j` names as parent.
    abbrev above : ℕ → ℕ
    above j = (s.proc (at s j).parent).pid

    exit-IsValid : IsValid t
    exit-IsValid = record {
      null = ap (λ f. f 0) o.alive ∙ null;
      live = λ j u. ap (λ f. f (t.slot j)) o.alive ∙ rw (slot_same j) (live j (was j u));
      named = λ j u. ground (arith, at_same j u, named j (was j u), named k used);
      locked = λ j u. ground (
        arith,
        at_same j u,
        locked j (was j u),
        locked k used,
        ap (λ f. f (at t j).fd_lock) o.owner,
      );
      no_self =
          λ j u. ground (arith, at_same j u, slot_same j, no_self j (was j u), no_self k used);
      parent_used = λ j u p. ground (
        arith,
        at_same j u,
        exit_at t o (above j),
        slot_same (above j),
        parent_used j (was j u),
        named (above j),
        named k used,
      );
      parent_runs = λ j u p. ground (
        arith,
        at_same j u,
        exit_at t o (above j),
        slot_same (above j),
        parent_used j (was j u),
        parent_runs j (was j u),
        no_self k used,
      );
    }

    exit-Childless : Childless t (s.slot k)
    exit-Childless j u =
        ground
          (arith, at_same j u, no_self j (was j u), no_self k used, named j (was j u), named k used)

  -- On a valid table `exit_process` of a used entry never faults. If the process has a parent, the
  -- table stays valid, the struct records the exit code and that it has exited, its children have
  -- no parent any more, so that nobody names it, and no other struct changes. If it has none, the
  -- struct is marked in the same way and its children are left as they are.
  pub exit_process_orphans :
      ((at s k).parent ≢ 0
        → (t : Procs) × (exit_process s k code ≡ done (0, t))
          × IsValid t
          × (t.slot ≡ s.slot)
          × ((j : ℕ) → Used s j → at t j ≡ after_exit s k code j)
          × Childless t (s.slot k))
      × ((at s k).parent ≡ 0 → exit_process s k code ≡ done (0, marked s k code))
  unfolding exit_process
  exit_process_orphans = (
    λ p.
        let (t, ran, o) = orphan-Orphaned 99 1 k marked-IsLinked used (omega arith) (omega arith) in
        (
          t,
          ground (arith, live k used, ran),
          exit-IsValid t o,
          o.slots,
          exit_at t o,
          exit-Childless t o,
        ),
    λ p. ground (arith, live k used),
  )
