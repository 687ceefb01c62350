-- ===== src/Process/Inv.antt =====
-- The invariant of the process table: what its entries point to, and whom the structs name as
-- parent.
use cs350_os.Base.{ℕ, ◌≤◌, ◌≡◌, ◌≢◌, ◌<◌, false, arith, true}
use cs350_os.Process.{Proc, Procs}

-- Entry `i` is in use.
abbrev pub Used : Procs → ℕ → Type 0
Used s i = (1 ≤ i) × (i < 100) × (s.slot i ≢ 0)

-- The struct that entry `i` points to.
abbrev pub at : Procs → ℕ → Proc
at s i = s.proc (s.slot i)

-- A used entry points to an allocated struct that names the entry and whose lock is free. A parent
-- that it names is the struct of another used entry, and has not exited.
pub record IsValid (s : Procs) : Type 0 where
  pub null : s.alive 0 ≡ false
  pub live : (i : ℕ) → Used s i → s.alive (s.slot i) ≡ true
  pub named : (i : ℕ) → Used s i → (at s i).pid ≡ i
  pub locked : (i : ℕ) → Used s i → ((at s i).fd_lock ≢ 0) × (s.owner (at s i).fd_lock ≡ 0)
  pub no_self : (i : ℕ) → Used s i → (at s i).parent ≢ s.slot i
  pub parent_used :
      (i : ℕ)
      → Used s i
      → (at s i).parent ≢ 0
      → (1 ≤ (s.proc (at s i).parent).pid)
        × ((s.proc (at s i).parent).pid < 100)
        × (s.slot (s.proc (at s i).parent).pid ≡ (at s i).parent)
  pub parent_runs : (i : ℕ) → Used s i → (at s i).parent ≢ 0 → (s.proc (at s i).parent).exit ≢ 1

-- No used entry names `p` as its parent.
abbrev pub Childless : Procs → ℕ → Type 0
Childless s p = (j : ℕ) → Used s j → (at s j).parent ≢ p

module _ {s : Procs} (valid : IsValid s) where
  open valid use {null, live, named, parent_runs}

  -- Two entries never share a struct.
  pub slot_injective : (i j : ℕ) → Used s i → Used s j → s.slot i ≡ s.slot j → i ≡ j
  slot_injective i j ui uj e = ground (arith, named i ui, named j uj)

  -- What has exited has no children.
  pub exited-Childless : (i : ℕ) → Used s i → (at s i).exit ≡ 1 → Childless s (s.slot i)
  exited-Childless i ui e j uj p = ground (arith, parent_runs j uj)
