-- ===== src/Files/Fork.antt =====
-- The loop of `md_forkentry` that gives a child the open files of its parent.
use cs350_os.Base.{
  ℕ, ◌≡◌, if◌then◌else◌, ◌≢◌, leb, true, ◌==◌, ◌<◌, ◌+◌, done, ◌&&◌, ◌≤◌, update, suc, arith, ltb,
  ◌^◌, Bool-cases, ◌∙◌, inl, zero, inr, refl, ==→ne,
}
use cs350_os.Files.{Files, set_fd, share}
use cs350_os.Files.Frame.{InUse, IsPrivate}

-- The entries from `fd` on, `n` of them, of table `t` have been given to table `u`: the child has
-- the parent's pointer in each, each file in them has one reference more, and nothing else changes.
pub record Shared (s : Files) (t u fd n : ℕ) (s' : Files) : Type 0 where
  pub pointers :
      (j : ℕ) → s'.fds u j ≡ (if leb fd j && ltb j (fd + n) then s.fds t j else s.fds u j)
  pub others : (v j : ℕ) → v ≢ u → s'.fds v j ≡ s.fds v j
  pub alive : (g : ℕ) → s'.alive g ≡ s.alive g
  pub counted :
      (j : ℕ)
      → InUse s t j
      → (s'.file (s.fds t j)).ref_count
        ≡ (s.file (s.fds t j)).ref_count + (if leb fd j && ltb j (fd + n) then 1 else 0)
  pub kept :
      (g : ℕ)
      → ((s'.file g).flag ≡ (s.file g).flag)
        × ((s'.file g).offset ≡ (s.file g).offset)
        × ((s'.file g).vn ≡ (s.file g).vn)

-- Every entry of `t` points to an allocated file of its own, and from `fd` on no count is at its
-- limit.
pub record IsOwn (s : Files) (t fd : ℕ) : Type 0 where
  pub live : (j : ℕ) → InUse s t j → s.alive (s.fds t j) ≡ true
  pub small : (j : ℕ) → fd ≤ j → InUse s t j → (s.file (s.fds t j)).ref_count < 2 ^ 31
  pub distinct : (a b : ℕ) → InUse s t a → InUse s t b → s.fds t a ≡ s.fds t b → a ≡ b

-- One round of the loop.
abbrev shared_one : Files → ℕ → ℕ → ℕ → Files
shared_one s t u fd =
    if s.fds t fd == 0 then set_fd s u fd 0 else record (set_fd s u fd (s.fds t fd)) {
      file =
          update s.file (s.fds t fd)
            (record (s.file (s.fds t fd)) { ref_count = (s.file (s.fds t fd)).ref_count + 1 });
    }

module _ {s : Files} (t u fd : ℕ) (apart : t ≢ u) (hi : fd < 20) (own : IsOwn s t fd) where
  open own use {live, small, distinct}

  share_step : (n : ℕ) → share (suc n) fd t u s ≡ share n (fd + 1) t u (shared_one s t u fd)
  unfolding share
  share_step n = elim (Bool-cases (s.fds t fd == 0)) [
    | inl e ↦ ground arith
    | inr e ↦ ground (arith, live fd (hi, ==→ne _ _ e), small fd (omega arith) (hi, ==→ne _ _ e))
  ]

  shared_one-IsOwn : IsOwn (shared_one s t u fd) t (fd + 1)
  shared_one-IsOwn = record {
    live = λ j v. ground (arith, live j);
    small = λ j le v. ground (arith, small j, distinct j fd);
    distinct = λ a b v w e. ground (arith, distinct a b);
  }

  share_later :
      (n : ℕ) (s' : Files)
      → Shared (shared_one s t u fd) t u (fd + 1) n s'
      → Shared s t u fd (suc n) s'
  share_later n s' rest = record {
    pointers = λ j. ground (arith, rest.pointers j);
    others = λ v j ne. ground (arith, rest.others v j);
    alive = λ g. ground (arith, rest.alive g);
    counted = λ j v. ground (arith, rest.counted j, distinct j fd);
    kept = λ g. ground (arith, rest.kept g);
  }

share-Shared :
    (n t u fd : ℕ) {s : Files}
    → t ≢ u
    → fd + n ≤ 20
    → IsOwn s t fd
    → (s' : Files) × (share n fd t u s ≡ done s') × Shared s t u fd n s'
share-Shared zero t u fd {s} apart hi own =
    unfold share in
    (
      s,
      refl,
      record {
        pointers = λ j. ground arith;
        others = λ v j ne. refl;
        alive = λ g. refl;
        counted = λ j v. ground arith;
        kept = λ g. (refl, refl, refl);
      },
    )
share-Shared (suc n) t u fd {s} apart hi own =
    let (s', ran, rest) =
      share-Shared n t u (fd + 1) {s = shared_one s t u fd} apart (omega arith)
        (shared_one-IsOwn t u fd apart (omega arith) own) in
    (
      s',
      share_step t u fd apart (omega arith) own n ∙ ran,
      share_later t u fd apart (omega arith) own n s' rest,
    )

-- Let the parent's table `t` share no file, and be another table than the child's `u`. The loop of
-- `md_forkentry` never faults: the child gets the parent's pointer in each of the 20 entries, each
-- file that the parent has open has two references then, and no offset, flag or vnode, no entry of
-- another table and no allocation changes.
pub share_fork :
    {s : Files} (t u : ℕ)
    → t ≢ u
    → IsPrivate s t
    → (s' : Files) × (share 20 0 t u s ≡ done s')
      × Shared s t u 0 20 s'
      × ((j : ℕ) → InUse s t j → (s'.file (s.fds t j)).ref_count ≡ 2)
share_fork {s} t u apart valid =
    let (s', ran, shared) = share-Shared 20 t u 0 {s = s} apart (omega arith) (record {
      live = valid.live;
      small = λ j le v. ground (arith, valid.single j);
      distinct = valid.distinct;
    }) in
    (s', ran, shared, λ j v. ground (arith, shared.counted j, valid.single j))
