-- ===== src/Files/Open.antt =====
-- `fd_table_open`: the lowest free descriptor.
use cs350_os.Base.{
  ℕ, update, ◌<◌, ◌≡◌, true, ◌≢◌, false, arith, none, ◌⊎◌, some, Bool-cases, leb, inl, inr,
}
use cs350_os.Base.Errno.{enomem, emfile}
use cs350_os.Files.{File, Files, set_fd, first_free, fd_table_open}
use cs350_os.Files.Frame.{IsPrivate, first_free-IsFirst}

-- The struct of a file that has just been opened.
abbrev pub new_file : ℕ → ℕ → File
new_file flag vn = record { flag = flag; offset = 0; ref_count = 1; vn = vn }

module _ {s : Files} {t : ℕ} (valid : IsPrivate s t) (flag f vn : ℕ) where
  open valid use {null, live, single, distinct}

  abbrev opened : ℕ → Files
  opened fd =
      set_fd (record s { file = update s.file f (new_file flag vn); alive = update s.alive f true })
        t fd f

  opened-IsPrivate :
      (fd : ℕ) → fd < 20 → s.fds t fd ≡ 0 → f ≢ 0 → s.alive f ≡ false → IsPrivate (opened fd) t
  opened-IsPrivate fd h free got unused = record {
    null = ground (arith, null);
    live = λ j u. ground (arith, live j);
    single = λ j u. ground (arith, single j, live j);
    distinct = λ a b u v e. ground (arith, distinct a b, live a, live b);
  }

  -- Let table `t` share no file, and let `kmalloc` return NULL or an address that is not in use. If
  -- every descriptor below 20 is used, `fd_table_open` returns EMFILE; else, if `kmalloc` returns
  -- NULL, ENOMEM; else, if `vfs_open` fails, its error; each time nothing changes. Otherwise it
  -- returns the lowest free descriptor, which then refers to a new file at offset 0; the other
  -- descriptors and files are unchanged, and the table still shares no file.
  pub fd_table_open_lowest :
      (code : ℕ)
      → s.alive f ≡ false
      → (((fd : ℕ) → fd < 20 → s.fds t fd ≢ 0)
          × (fd_table_open s t flag f (code, vn) ≡ (emfile, none, s)))
        ⊎ ((fd : ℕ) × (fd < 20)
            × (s.fds t fd ≡ 0)
            × ((j : ℕ) → j < fd → s.fds t j ≢ 0)
            × (f ≡ 0 → fd_table_open s t flag f (code, vn) ≡ (enomem, none, s))
            × (f ≢ 0 → code ≢ 0 → fd_table_open s t flag f (code, vn) ≡ (code, none, s))
            × (f ≢ 0
                → code ≡ 0
                → (s' : Files) × (fd_table_open s t flag f (code, vn) ≡ (0, some fd, s'))
                  × (s'.fds t fd ≡ f)
                  × (s'.file f ≡ new_file flag vn)
                  × ((j : ℕ) → j ≢ fd → s'.fds t j ≡ s.fds t j)
                  × ((g : ℕ) → s.alive g ≡ true → (s'.file g ≡ s.file g) × (s'.alive g ≡ true))
                  × IsPrivate s' t))
  unfolding fd_table_open
  fd_table_open_lowest code unused =
      let first = first_free-IsFirst s t 20 0 in
      let fd : ℕ = first_free s t 20 0 in
      elim (Bool-cases (leb 20 fd)) [
        | inl full ↦ inl (λ j h. first.used j (omega arith) (ground arith), rw full)
        | inr room ↦ inr (
          fd,
          ground arith,
          first.empty (ground arith),
          λ j h. first.used j (omega arith) h,
          λ e. ground arith,
          λ e ne. ground arith,
          λ got ok. (
            opened fd,
            ground arith,
            ground arith,
            ground arith,
            λ j ne. ground arith,
            λ g h. (ground arith, ground arith),
            opened-IsPrivate fd (ground arith) (first.empty (ground arith)) got unused,
          ),
        )
      ]
