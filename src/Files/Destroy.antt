-- ===== src/Files/Destroy.antt =====
-- `fd_table_destroy` closes every file of a table that shares none.
use cs350_os.Base.{
  ℕ, List, ◌≤◌, ◌≡◌, ◌+◌, [], ◌<◌, if◌then◌else◌, suc, ◌==◌, ◌≢◌, leb, ◌∷◌, arith, ◌&&◌, not, ltb,
  zero, false, refl, done, Bool-cases, inl, ==→eq, inr, ==→ne, ne→==, ◌∙◌, true, update,
}
use mathlib.Core.List.{reverse_aux}
use cs350_os.Files.{Files, close_all, fd_table_destroy}
use cs350_os.Files.Frame.{InUse, IsPrivate}
use cs350_os.Files.Close.{file_at, fd_table_close_frees, close_same_tables}

-- The vnodes of the used entries from `fd` on, among `n`.
abbrev pub vnodes : Files → ℕ → ℕ → ℕ → List ℕ
vnodes s t zero fd = []
vnodes s t (suc n) fd =
    let rest = vnodes s t n (fd + 1) in
    if s.fds t fd == 0 then rest else (s.file (s.fds t fd)).vn ∷ rest

vnodes-eq :
    (s r : Files) (t n fd : ℕ)
    → ((j : ℕ)
        → fd ≤ j
        → j < fd + n
        → (r.fds t j ≡ s.fds t j) × (s.fds t j ≢ 0 → r.file (s.fds t j) ≡ s.file (s.fds t j)))
    → vnodes r t n fd ≡ vnodes s t n fd
vnodes-eq s r t zero fd same = refl
vnodes-eq s r t (suc n) fd same =
    let rest : vnodes r t n (fd + 1) ≡ vnodes s t n (fd + 1) =
      vnodes-eq s r t n (fd + 1) (λ j a b. same j (omega arith) (omega arith)) in
    ground (arith, rest, same fd)

-- The entries from `fd` on, `n` of them, have been closed in order.
pub record Closed (s : Files) (t fd n : ℕ) (s' : Files) : Type 0 where
  pub emptied : (j : ℕ) → s'.fds t j ≡ (if leb fd j && ltb j (fd + n) then 0 else s.fds t j)
  pub freed : (j : ℕ) → fd ≤ j → j < fd + n → s.fds t j ≢ 0 → s'.alive (s.fds t j) ≡ false
  pub no_more : (g : ℕ) → s.alive g ≡ false → s'.alive g ≡ false
  pub kept : (g : ℕ) → ((j : ℕ) → InUse s t j → s.fds t j ≢ g) → s'.alive g ≡ s.alive g
  pub tables : s'.tables ≡ s.tables
  pub vfs_closed : s'.closed ≡ reverse_aux (vnodes s t n fd) s.closed

module _ (t : ℕ) where
  -- An entry in use is closed, and then the rest.
  cons_used :
      (s s₁ s' : Files) (fd n : ℕ)
      → IsPrivate s t
      → fd + suc n ≤ 20
      → s.fds t fd ≢ 0
      → ((j : ℕ) → s₁.fds t j ≡ (if j == fd then 0 else s.fds t j))
      → ((g : ℕ) → s₁.alive g ≡ (not (g == s.fds t fd) && s.alive g))
      → ((g : ℕ) → g ≢ s.fds t fd → s₁.file g ≡ s.file g)
      → s₁.closed ≡ (file_at s t fd).vn ∷ s.closed
      → s₁.tables ≡ s.tables
      → Closed s₁ t (fd + 1) n s'
      → Closed s t fd (suc n) s'
  cons_used s s₁ s' fd n valid hi used fds alive file closed tables rest = record {
    emptied = λ j. ground (arith, rest.emptied j, fds j);
    freed = λ j a b h. ground (
      arith,
      rest.freed j,
      rest.no_more (s.fds t j),
      fds j,
      alive (s.fds t j),
      valid.distinct j fd,
    );
    no_more = λ g h. ground (arith, rest.no_more g, alive g);
    kept = λ g h.
        (let later : s'.alive g ≡ s₁.alive g = rest.kept g (λ j u. ground (arith, h j, fds j)) in
          ground (arith, later, alive g, h fd));
    tables = rest.tables ∙ tables;
    vfs_closed =
        let same : vnodes s₁ t n (fd + 1) ≡ vnodes s t n (fd + 1) =
          vnodes-eq s s₁ t n (fd + 1) (λ j a b. (
            ground (arith, fds j),
            λ u. file (s.fds t j) (λ e. ground (arith, valid.distinct j fd)),
          )) in
        let e : (s.fds t fd == 0) ≡ false = ne→== _ _ used in
        rw (rest.vfs_closed, same, closed, e) refl;
  }

  -- An empty entry is passed over.
  cons_unused :
      (s s' : Files) (fd n : ℕ)
      → s.fds t fd ≡ 0
      → Closed s t (fd + 1) n s'
      → Closed s t fd (suc n) s'
  cons_unused s s' fd n unused rest = record {
    emptied = λ j. ground (arith, rest.emptied j);
    freed = λ j a b h. ground (arith, rest.freed j);
    no_more = rest.no_more;
    kept = rest.kept;
    tables = rest.tables;
    vfs_closed = rw (rest.vfs_closed, unused) refl;
  }

  close_all-Closed :
      (n fd : ℕ) (s : Files)
      → IsPrivate s t
      → fd + n ≤ 20
      → (s' : Files) × (close_all n fd s t ≡ done s') × Closed s t fd n s'
  unfolding close_all
  close_all-Closed zero fd s valid hi = (
    s,
    refl,
    record {
      emptied = λ j. ground arith;
      freed = λ j a b. absurd (omega arith);
      no_more = λ g h. h;
      kept = λ g h. refl;
      tables = refl;
      vfs_closed = refl;
    },
  )
  close_all-Closed (suc n) fd s valid hi = elim (Bool-cases (s.fds t fd == 0)) [
    | inl e ↦
        let (s', run, closed) = close_all-Closed n (fd + 1) s valid (omega arith) in
        (s', rw (e, run) refl, cons_unused s s' fd n (==→eq _ _ e) closed)
    | inr e ↦
        let used : s.fds t fd ≢ 0 = ==→ne _ _ e in
        let (s₁, once, fds, alive, file, vfs, private) =
          (fd_table_close_frees {s = s} {t = t} fd valid).1 (omega arith, used) in
        let (s', run, closed) = close_all-Closed n (fd + 1) s₁ private (omega arith) in
        (
          s',
          rw (e, once, run) refl,
          cons_used s s₁ s' fd n valid hi used fds alive file vfs
              (close_same_tables s t fd valid (omega arith, used) s₁ once) closed,
        )
  ]

-- Let table `t`, which is allocated and not NULL, share no file. `fd_table_destroy` succeeds: the files that were
-- open in it are freed and no other one, their vnodes were given to `vfs_close` once each, in the order
-- of the descriptors, and the table is freed and no other one.
pub fd_table_destroy_frees :
    {s : Files} {t : ℕ}
    → IsPrivate s t
    → t ≢ 0
    → s.tables t ≡ true
    → (s' : Files) × (fd_table_destroy s t ≡ done s')
      × ((j : ℕ) → InUse s t j → s'.alive (s.fds t j) ≡ false)
      × ((g : ℕ) → ((j : ℕ) → InUse s t j → s.fds t j ≢ g) → s'.alive g ≡ s.alive g)
      × (s'.closed ≡ reverse_aux (vnodes s t 20 0) s.closed)
      × ((u : ℕ) → s'.tables u ≡ (if u == t then false else s.tables u))
unfolding fd_table_destroy
fd_table_destroy_frees {s} {t} valid ne there =
    let (s', run, closed) = close_all-Closed t 20 0 s valid (omega arith) in
    (
      record s' { tables = update s'.tables t false },
      rw (ne→== t 0 ne, there, run) refl,
      λ j u. closed.freed j (omega arith) (omega (arith, u.0)) u.1,
      closed.kept,
      closed.vfs_closed,
      λ u. rw closed.tables refl,
    )
