-- ===== src/Process/Add.antt =====
-- `add_process_new` and `add_process_child`.
use cs350_os.Base.{
  ℕ, ◌≢◌, update, ◌≤◌, ◌≡◌, true, ◌<◌, false, arith, Outcome, done, ◌>>=◌, ◌⊎◌, if◌then◌else◌, ◌==◌,
  refl, inr, inl, ne→==,
}
use cs350_os.Process.{Proc, Procs, Fresh, install, add_process_new, add_process_child, find_slot}
use cs350_os.Process.Inv.{Used, at, IsValid}
use cs350_os.Process.Slot.{
  parent_alive, cleared, done_with, Taken, find_slot-Finds, cleared-IsValid,
}

-- What the allocator promises: an address that is not NULL and not in use, and a lock.
pub record IsFresh (s : Procs) (f : Fresh) : Type 0 where
  pub got : f.address ≢ 0
  pub unused : s.alive f.address ≡ false
  pub lock : f.fd_lock ≢ 0

-- `p` is NULL, or the struct of entry `e`, which has not exited.
abbrev pub IsParent : Procs → ℕ → ℕ → Type 0
IsParent s e p = p ≢ 0 → Used s e × (s.slot e ≡ p) × ((at s e).exit ≢ 1)

abbrev installed : Procs → Fresh → Proc → ℕ → Procs
installed s f p k = record s {
  proc = update s.proc f.address p;
  alive = update s.alive f.address true;
  slot = update s.slot k f.address;
  owner = update s.owner f.fd_lock 0;
}

module _ {s : Procs} (valid : IsValid s) {f : Fresh} (fresh : IsFresh s f) (p : Proc) (k e : ℕ)
    (lo : 1 ≤ k) (hi : k < 100) (free : s.slot k ≡ 0) (pid : p.pid ≡ k)
    (lock : p.fd_lock ≡ f.fd_lock) (running : p.exit ≡ 0) (parent : IsParent s e p.parent) where
  open valid use {null, live, named, locked, no_self, parent_used, parent_runs}
  open fresh use {got, unused}

  old : (j : ℕ) → Used (installed s f p k) j → j ≢ k → Used s j × (s.slot j ≢ f.address)
  old j u ne = ground (arith, live j)

  installed-IsValid : IsValid (installed s f p k)
  installed-IsValid = record {
    null = ground (arith, null);
    live = λ j u. ground (arith, live j);
    named = λ j u. ground (arith, old j u, named j);
    locked = λ j u. ground (arith, old j u, locked j, fresh.lock);
    no_self = λ j u. ground (arith, old j u, no_self j, live e, parent, got);
    parent_used = λ j u q.
        ground (arith, old j u, parent_used j, parent_alive valid j, live e, named e, parent);
    parent_runs =
        λ j u q. ground (arith, old j u, parent_runs j, parent_alive valid j, live e, parent);
  }

-- What a call that adds a process does: the first entry that is empty or holds a struct that has
-- exited and has no parent is given the new struct, and no other entry or struct changes; if there
-- is no such entry, nothing changes and NULL is returned.
abbrev pub Added : Procs → Fresh → ℕ → Outcome (ℕ × Procs) → Type 0
Added s f parent r =
    ((k : ℕ) × (t : Procs) × (r ≡ done (f.address, t))
      × (1 ≤ k)
      × (k < 100)
      × ((s.slot k ≢ 0 → done_with s k ≡ true) × ((j : ℕ) → 1 ≤ j → j < k → Taken s j))
      × IsValid t
      × ((t.slot k ≡ f.address) × ((at t k).exit ≡ 0) × ((at t k).parent ≡ parent))
      × ((j : ℕ) → j ≢ k → Used s j → (t.slot j ≡ s.slot j) × (at t j ≡ at s j)))
    ⊎ ((r ≡ done (0, s)) × ((j : ℕ) → 1 ≤ j → j < 100 → Taken s j))

module _ {s : Procs} (valid : IsValid s) {f : Fresh} (fresh : IsFresh s f) (e : ℕ) where
  open valid use {live}
  open fresh use {got, unused}

  cleared-free : (k : ℕ) → (cleared s k).slot k ≡ 0
  cleared-free k = ground arith

  cleared-slot : (k j : ℕ) → j ≢ k → (cleared s k).slot j ≡ s.slot j
  cleared-slot k j h = ground arith

  cleared-proc : (k : ℕ) → (cleared s k).proc ≡ s.proc
  cleared-proc k = ground arith

  cleared-IsFresh : (k : ℕ) → IsFresh (cleared s k) f
  cleared-IsFresh k = record { got = got; unused = ground (arith, unused); lock = fresh.lock }

  cleared-IsParent :
      (k p : ℕ)
      → (s.slot k ≢ 0 → done_with s k ≡ true)
      → IsParent s e p
      → IsParent (cleared s k) e p
  cleared-IsParent k p over parent h =
      let apart : e ≢ k = λ same. ground (arith, parent h, over) in
      (ground (arith, parent h), ground (arith, parent h), ground (arith, parent h))

  -- `add_process_new` and `add_process_child` differ in the fields that they set.
  added :
      (fields : ℕ → Proc) (p : ℕ)
      → ((k : ℕ)
          → ((fields k).pid ≡ k)
            × ((fields k).fd_lock ≡ f.fd_lock)
            × ((fields k).exit ≡ 0)
            × ((fields k).parent ≡ p))
      → IsParent s e p
      → Added s f p (
          find_slot 99 1 s >>= λ (k, s').
          if k == 0 then done (0, s') else install s' f (fields k) k)
  unfolding install
  added fields p has parent = elim (find_slot-Finds valid 99 1 (omega arith) (omega arith)) [
    | inr (none_free, all) ↦ inr (rw none_free, all)
    | inl (k, lo, hi, found, over, before) ↦ inl (
      k,
      installed (cleared s k) f (fields k) k,
      rw (found, ne→== k 0 (omega arith)) (ground arith),
      lo,
      omega arith,
      (over, before),
      installed-IsValid (cleared-IsValid valid k lo (omega arith) over) (cleared-IsFresh k)
          (fields k) k e lo (omega arith) (cleared-free k) (has k).0 (has k).1 (has k).2
          (rw (has k).3 (cleared-IsParent k p over parent)),
      (ground arith, ground (arith, has k), ground (arith, has k)),
      λ j ne u. (ground arith, ground (arith, live j u)),
    )
  ]

-- On a valid process table, with allocations that return what is not in use, `add_process_new`
-- gives the first entry that is empty or done with to a running process with no parent.
pub add_process_new-Added :
    {s : Procs} {f : Fresh} → IsValid s → IsFresh s f → Added s f 0 (add_process_new s f)
unfolding add_process_new
add_process_new-Added {f} valid fresh =
    added valid fresh 0
      (λ k. record f.junk {
        pid = k;
        exit = 0;
        exit_lock = f.exit_lock;
        exit_cv = f.exit_cv;
        table = 0;
        proc_cv = f.proc_cv;
        fd_lock = f.fd_lock;
        parent = 0;
      })
      0 (λ k. (refl, refl, refl, refl)) (λ h. absurd (h refl))

-- The same of `add_process_child`, with a parent that is NULL or the struct of an entry that has
-- not exited: the new process names it.
pub add_process_child-Added :
    {s : Procs} {f : Fresh} (e p : ℕ)
    → IsValid s
    → IsFresh s f
    → IsParent s e p
    → Added s f p (add_process_child s f p)
unfolding add_process_child
add_process_child-Added {f} e p valid fresh parent =
    added valid fresh e
      (λ k. record f.junk {
        pid = k;
        exit = 0;
        exit_cv = f.exit_cv;
        table = 0;
        proc_cv = f.proc_cv;
        fd_lock = f.fd_lock;
        parent = p;
      })
      p (λ k. (refl, refl, refl, refl)) parent
