-- ===== src/Process/Orphan.antt =====
-- The loop of `exit_process` that tells the children.
use cs350_os.Base.{
  ℕ, ◌≡◌, update, Bool, ◌≤◌, arith, true, not, ◌<◌, if◌then◌else◌, ◌≢◌, ◌==◌, done, ◌&&◌,
  Bool-cases, inl, inr, ==→ne, leb, ◌+◌, ltb, suc, ◌∙◌, zero, refl, ap,
}
use cs350_os.Process.{Procs, is_child, orphan}
use cs350_os.Process.Inv.{Used, at}

-- The invariant without the clause that parents run, which does not hold inside the loop.
pub record IsLinked (s : Procs) : Type 0 where
  pub live : (i : ℕ) → Used s i → s.alive (s.slot i) ≡ true
  pub named : (i : ℕ) → Used s i → (at s i).pid ≡ i
  pub parent_used :
      (i : ℕ)
      → Used s i
      → (at s i).parent ≢ 0
      → (1 ≤ (s.proc (at s i).parent).pid)
        × ((s.proc (at s i).parent).pid < 100)
        × (s.slot (s.proc (at s i).parent).pid ≡ (at s i).parent)

abbrev pub without_parent : Procs → ℕ → Procs
without_parent s i = record s { proc = update s.proc (s.slot i) (record (at s i) { parent = 0 }) }

-- Is the struct of entry `i` a child of that of entry `k`?
abbrev pub names : Procs → ℕ → ℕ → Bool
names s k i = not (s.slot i == 0) && (not (i == k) && ((at s i).parent == s.slot k))

module _ {s : Procs} (linked : IsLinked s) (k : ℕ) (used : Used s k) where
  open linked use {live, named, parent_used}

  is_child_lem : (i : ℕ) → 1 ≤ i → i < 100 → is_child s (s.slot k) i (s.slot i) ≡ done (names s k i)
  unfolding is_child
  is_child_lem i lo hi = elim (Bool-cases (s.slot i == 0)) [
    | inl e ↦ ground arith
    | inr e ↦
        let u : Used s i = (lo, hi, ==→ne _ _ e) in
        ground (
          arith,
          live i u,
          live k used,
          named k used,
          parent_used i u,
          live (s.proc (at s i).parent).pid,
          named (s.proc (at s i).parent).pid,
        )
  ]

  apart : (i j : ℕ) → Used s i → Used s j → s.slot i ≡ s.slot j → i ≡ j
  apart i j ui uj e = ground (arith, named i ui, named j uj)

  without_parent-at :
      (i j : ℕ)
      → Used s i
      → Used s j
      → at (without_parent s i) j ≡ (if j == i then record (at s i) { parent = 0 } else at s j)
  without_parent-at i j ui uj = ground (arith, apart i j ui uj)

  without_parent-IsLinked : (i : ℕ) → Used s i → IsLinked (without_parent s i)
  without_parent-IsLinked i u = record {
    live = live;
    named = λ j v. ground (arith, named j v, named i u);
    parent_used = λ j v p. ground (arith, parent_used j v, named i u);
  }

-- After the loop over the entries from `i` on, `n` of them, the children among them have no
-- parent, and nothing else has changed.
pub record Orphaned (s : Procs) (k i n : ℕ) (t : Procs) : Type 0 where
  pub slots : t.slot ≡ s.slot
  pub alive : t.alive ≡ s.alive
  pub owner : t.owner ≡ s.owner
  pub structs :
      (j : ℕ)
      → Used s j
      → at t j ≡ (
          if leb i j && (ltb j (i + n) && names s k j)
          then record (at s j) { parent = 0 }
          else at s j)

abbrev pub orphan_one : Procs → ℕ → ℕ → Procs
orphan_one s k i = if names s k i then without_parent s i else s

module _ {s : Procs} (linked : IsLinked s) (k : ℕ) (used : Used s k) where
  orphan_one-at :
      (i j : ℕ)
      → 1 ≤ i
      → i < 100
      → Used s j
      → at (orphan_one s k i) j
        ≡ (if (j == i) && names s k i then record (at s j) { parent = 0 } else at s j)
  orphan_one-at i j lo hi u = elim (Bool-cases (names s k i)) [
    | inl e ↦ rw e (ground (arith, apart linked k used i j))
    | inr e ↦ rw e (ground arith)
  ]

  orphan_one-IsLinked : (i : ℕ) → 1 ≤ i → i < 100 → IsLinked (orphan_one s k i)
  orphan_one-IsLinked i lo hi = elim (Bool-cases (names s k i)) [
    | inl e ↦ rw e (without_parent-IsLinked linked k used i (lo, hi, ground arith))
    | inr e ↦ rw e linked
  ]

  orphan_one-frame :
      (i : ℕ)
      → ((orphan_one s k i).slot ≡ s.slot)
        × ((orphan_one s k i).alive ≡ s.alive)
        × ((orphan_one s k i).owner ≡ s.owner)
  orphan_one-frame i = (ground arith, ground arith, ground arith)

  orphan-step :
      (n i : ℕ)
      → 1 ≤ i
      → i < 100
      → orphan (suc n) i (s.slot k) s ≡ orphan n (i + 1) (s.slot k) (orphan_one s k i)
  unfolding orphan
  orphan-step n i lo hi = ground (arith, is_child_lem linked k used i)

-- One round and the rest together.
Orphaned-step :
    {s : Procs} (linked : IsLinked s) (k : ℕ) (used : Used s k) (i n : ℕ) (t : Procs)
    → 1 ≤ i
    → i + suc n ≤ 100
    → Orphaned (orphan_one s k i) k (i + 1) n t
    → Orphaned s k i (suc n) t
Orphaned-step {s} linked k used i n t lo hi rest = record {
  slots = rest.slots ∙ (orphan_one-frame linked k used i).0;
  alive = rest.alive ∙ (orphan_one-frame linked k used i).1;
  owner = rest.owner ∙ (orphan_one-frame linked k used i).2;
  structs = λ j u. ground (
    arith,
    rest.structs j,
    orphan_one-at linked k used i j lo (omega arith) u,
    apart linked k used i j,
  );
}

pub orphan-Orphaned :
    (n i k : ℕ) {s : Procs}
    → IsLinked s
    → Used s k
    → 1 ≤ i
    → i + n ≤ 100
    → (t : Procs) × (orphan n i (s.slot k) s ≡ done t) × Orphaned s k i n t
unfolding orphan
orphan-Orphaned zero i k {s} linked used lo hi =
    (s, refl, record { slots = refl; alive = refl; owner = refl; structs = λ j u. ground arith })
orphan-Orphaned (suc n) i k {s} linked used lo hi =
    let slots : (orphan_one s k i).slot ≡ s.slot = (orphan_one-frame linked k used i).0 in
    let same : (orphan_one s k i).slot k ≡ s.slot k = ap (λ f. f k) slots in
    let (t, ran, done_) =
      orphan-Orphaned n (i + 1) k {s = orphan_one s k i}
        (orphan_one-IsLinked linked k used i lo (omega arith)) (used.0, used.1, rw same used.2)
        (omega arith) (omega arith) in
    (
      t,
      orphan-step linked k used n i lo (omega arith) ∙ rw same at ran,
      Orphaned-step linked k used i n t lo hi done_,
    )
