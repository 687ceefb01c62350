-- ===== src/Files/Close.antt =====
-- `fd_table_close` and `fd_table_close_me`.
use cs350_os.Base.{
  ℕ, ◌≢◌, update, ◌≡◌, ◌≤◌, false, true, done, ◌∷◌, ◌-◌, ◌<◌, Bool-cases, arith, ◌^◌, if◌then◌else◌,
  ◌==◌, not, inl, ◌&&◌, inr, ==→ne, refl, sym, ◌∙◌, ap, done-injective,
}
use cs350_os.Base.Errno.{ebadf}
use cs350_os.Files.{File, Files, set_fd, fd_table_close}
use cs350_os.Files.Frame.{InUse, IsPrivate}

-- The file of descriptor `fd` of table `t`.
abbrev pub file_at : Files → ℕ → ℕ → File
file_at s t fd = s.file (s.fds t fd)

module _ (s : Files) (t fd : ℕ) where
  pub close_bad : (s.fds t fd ≢ 0 → 20 ≤ fd) → fd_table_close s t fd ≡ done (ebadf, s)
  unfolding fd_table_close
  close_bad h = elim (Bool-cases (s.fds t fd == 0)) [
    | inl e ↦ ground arith
    | inr e ↦ ground (arith, h (==→ne _ _ e))
  ]

  abbrev pub after_last : Files
  after_last =
      set_fd
        (record s {
          file = update s.file (s.fds t fd) (record (file_at s t fd) { ref_count = 0 });
          alive = update s.alive (s.fds t fd) false;
          closed = (file_at s t fd).vn ∷ s.closed;
        })
        t fd 0

  abbrev pub after_drop : Files
  after_drop = record s {
    file =
        update s.file (s.fds t fd)
          (record (file_at s t fd) { ref_count = (file_at s t fd).ref_count - 1 });
  }

  module _ (used : InUse s t fd) (live : s.alive (s.fds t fd) ≡ true) where
    pub close_last : (file_at s t fd).ref_count ≡ 1 → fd_table_close s t fd ≡ done (0, after_last)
    unfolding fd_table_close
    close_last one = ground arith

    pub close_more :
        1 < (file_at s t fd).ref_count
        → (file_at s t fd).ref_count < 2 ^ 32
        → fd_table_close s t fd ≡ done (0, after_drop)
    unfolding fd_table_close
    close_more more small = ground arith

-- Let table `t` share no file. `fd_table_close` of a descriptor out of range or not in use returns
-- EBADF and changes nothing. Of one in use it returns 0, empties that entry and no other, frees its
-- file and no other, gives its vnode to `vfs_close`, and leaves a table that shares no file.
pub fd_table_close_frees :
    {s : Files} {t : ℕ} (fd : ℕ)
    → IsPrivate s t
    → ((s.fds t fd ≢ 0 → 20 ≤ fd) → fd_table_close s t fd ≡ done (ebadf, s))
      × (InUse s t fd
          → (s' : Files) × (fd_table_close s t fd ≡ done (0, s'))
            × ((j : ℕ) → s'.fds t j ≡ (if j == fd then 0 else s.fds t j))
            × ((g : ℕ) → s'.alive g ≡ (not (g == s.fds t fd) && s.alive g))
            × ((g : ℕ) → g ≢ s.fds t fd → s'.file g ≡ s.file g)
            × (s'.closed ≡ (file_at s t fd).vn ∷ s.closed)
            × IsPrivate s' t)
fd_table_close_frees {s} {t} fd valid = (
  close_bad s t fd,
  λ used. (
    after_last s t fd,
    close_last s t fd used (valid.live fd used) (valid.single fd used),
    λ j. ground arith,
    λ g. ground arith,
    λ g ne. ground arith,
    refl,
    record {
      null = ground (arith, valid.null);
      live = λ j u. ground (arith, valid.live j, valid.distinct j fd);
      single = λ j u. ground (arith, valid.single j, valid.distinct j fd);
      distinct = λ a b u v e. ground (arith, valid.distinct a b);
    },
  ),
)

-- No table is freed by it.
pub close_same_tables :
    (s : Files) (t fd : ℕ)
    → IsPrivate s t
    → InUse s t fd
    → (s' : Files) → fd_table_close s t fd ≡ done (0, s')
    → s'.tables ≡ s.tables
close_same_tables s t fd valid used s' ran =
    let same : done (0, s') ≡ done (0, after_last s t fd) =
      sym ran ∙ close_last s t fd used (valid.live fd used) (valid.single fd used) in
    ap (λ x. x.1.tables) (done-injective (0, s') (0, after_last s t fd) same)
