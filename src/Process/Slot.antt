-- ===== src/Process/Slot.antt =====
-- The search for an entry of the process table.
use mathlib.Core.Path.{subst}
use cs350_os.Base.{
  ℕ, Bool, ◌≢◌, if◌then◌else◌, ◌≡◌, ◌≤◌, Outcome, ◌==◌, false, true, done, ◌<◌, ◌+◌, ◌&&◌, arith,
  Bool-cases, ◌⊎◌, inr, inl, suc, ==→ne, ==→eq, zero, refl, sym,
}
use cs350_os.Process.{Procs, find_slot, reclaimable}
use cs350_os.Process.Inv.{Used, at, IsValid, exited-Childless}
use cs350_os.Process.Remove.{removed, remove_process_lem, removed-IsValid}

-- The entry holds a struct that has exited and has no parent.
abbrev pub done_with : Procs → ℕ → Bool
done_with s i = ((at s i).exit == 1) && ((at s i).parent == 0)

-- An entry that the search passes over.
abbrev pub Taken : Procs → ℕ → Type 0
Taken s i = (s.slot i ≢ 0) × (done_with s i ≡ false)

-- The table once entry `i` is empty.
abbrev pub cleared : Procs → ℕ → Procs
cleared s i = if s.slot i == 0 then s else removed s i

module _ {s : Procs} (valid : IsValid s) where
  open valid use {null, live, named, locked, parent_used, parent_runs}

  pub parent_alive : (i : ℕ) → Used s i → (at s i).parent ≢ 0 → s.alive (at s i).parent ≡ true
  parent_alive i u p = ground (arith, parent_used i u, live (s.proc (at s i).parent).pid)

  -- Under the invariant the parent of a struct has not exited, so the second test never holds.
  reclaimable_lem : (i : ℕ) → Used s i → reclaimable s (at s i) ≡ done (done_with s i)
  unfolding reclaimable
  reclaimable_lem i u = ground (arith, parent_alive i u, parent_runs i u)

  pub cleared-IsValid :
      (i : ℕ) → 1 ≤ i → i < 100 → (s.slot i ≢ 0 → done_with s i ≡ true) → IsValid (cleared s i)
  cleared-IsValid i lo hi ended = elim (Bool-cases (s.slot i == 0)) [
    | inl e ↦ rw e valid
    | inr e ↦
        let used : Used s i = (lo, hi, ==→ne _ _ e) in
        let over : done_with s i ≡ true = ended (==→ne _ _ e) in
        rw e (removed-IsValid valid i used (exited-Childless valid i used (ground arith)))
  ]

  -- What the search does from entry `i` on, with `n` entries to look at.
  abbrev pub Finds : ℕ → ℕ → Outcome (ℕ × Procs) → Type 0
  Finds n i r =
      ((k : ℕ) × (i ≤ k)
        × (k < i + n)
        × (r ≡ done (k, cleared s k))
        × (s.slot k ≢ 0 → done_with s k ≡ true)
        × ((j : ℕ) → i ≤ j → j < k → Taken s j))
      ⊎ ((r ≡ done (0, s)) × ((j : ℕ) → i ≤ j → j < i + n → Taken s j))

  passes :
      (n i : ℕ) → Used s i → done_with s i ≡ false → find_slot (suc n) i s ≡ find_slot n (i + 1) s
  unfolding find_slot
  passes n i used busy = ground (arith, live i used, reclaimable_lem i used)

  find_later :
      (n i : ℕ) (r : Outcome (ℕ × Procs)) → Taken s i → Finds n (i + 1) r → Finds (suc n) i r
  find_later n i r taken (inl (k, lo, hi, e, ended, before)) =
      inl (k, omega arith, omega arith, e, ended, λ j a b. grind (arith, before j))
  find_later n i r taken (inr (e, all)) = inr (e, λ j a b. grind (arith, all j))

  pub find_slot-Finds : (n i : ℕ) → 1 ≤ i → i + n ≤ 100 → Finds n i (find_slot n i s)
  unfolding find_slot
  find_slot-Finds zero i lo hi = inr (refl, λ j a b. absurd (omega arith))
  find_slot-Finds (suc n) i lo hi = elim (Bool-cases (s.slot i == 0)) [
    | inl empty ↦ inl (
      i,
      omega arith,
      omega arith,
      ground arith,
      λ h. absurd (h (==→eq _ _ empty)),
      λ j a b. absurd (omega arith),
    )
    | inr full ↦
        let used : Used s i = (lo, omega arith, ==→ne _ _ full) in
        elim (Bool-cases (done_with s i)) [
          | inl over ↦ inl (
            i,
            omega arith,
            omega arith,
            ground (
              arith,
              live i used,
              named i used,
              reclaimable_lem i used,
              remove_process_lem valid i used,
            ),
            λ h. over,
            λ j a b. absurd (omega arith),
          )
          | inr busy ↦ subst (Finds (suc n) i) (sym (passes n i used busy)) (
              find_later n i (find_slot n (i + 1) s) (==→ne _ _ full, busy)
                (find_slot-Finds n (i + 1) (omega arith) (omega arith)))
        ]
  ]
