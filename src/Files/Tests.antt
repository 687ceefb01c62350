-- ===== src/Files/Tests.antt =====
-- The open files of small tables, and the theorems at them.
use cs350_os.Base.{
  ℕ, update, arith, ◌<◌, ◌≢◌, ◌≡◌, ◌≤◌, false, none, done, refl, true, ◌⊎◌, if◌then◌else◌, some, [],
  ◌==◌, panic, not, ◌&&◌, ◌∷◌,
}
use mathlib.Core.List.{reverse_aux}
use cs350_os.Base.Errno.{ebadf, emfile, enomem}
use cs350_os.Files.{Files, fd_table_open, fd_table_close, fd_table_get, fd_table_destroy, share}
use cs350_os.Files.Frame.{InUse, IsPrivate}
use cs350_os.Files.Open.{new_file, fd_table_open_lowest}
use cs350_os.Files.Close.{file_at, fd_table_close_frees}
use cs350_os.Files.Destroy.{vnodes, fd_table_destroy_frees}
use cs350_os.Files.Sharing.{close_twice_dangles}
use cs350_os.Files.Fork.{Shared, share_fork}

-- Table 7 has descriptor 0, a file opened for reading, and descriptor 2, one opened for writing.
abbrev private_files : Files
private_files = record {
  tables = update (λ _. false) 7 true;
  fds = update (λ _. λ _. 0) 7 (update (update (λ _. 0) 0 40) 2 60);
  file = update (λ _. new_file 1 300) 40 (new_file 0 200);
  alive = update (update (λ _. false) 40 true) 60 true;
  closed = [];
}

private_files-IsPrivate : IsPrivate private_files 7
private_files-IsPrivate = record {
  null = refl;
  live = λ i u. ground arith;
  single = λ i u. ground arith;
  distinct = λ a b u v e. ground arith;
}

-- The file of descriptor 2 is also descriptor 5 of table 8.
abbrev shared_files : Files
shared_files = record private_files {
  fds = update private_files.fds 8 (update (λ _. 0) 5 60);
  file = update private_files.file 60 (record (new_file 1 300) { ref_count = 2 });
}

fd_table_open_lowest_example :
    (((fd : ℕ) → fd < 20 → private_files.fds 7 fd ≢ 0)
      × (fd_table_open private_files 7 1 80 (0, 400) ≡ (emfile, none, private_files)))
    ⊎ ((fd : ℕ) × (fd < 20)
        × (private_files.fds 7 fd ≡ 0)
        × ((j : ℕ) → j < fd → private_files.fds 7 j ≢ 0)
        × (◌≡◌ {A = ℕ} 80 0
            → fd_table_open private_files 7 1 80 (0, 400) ≡ (enomem, none, private_files))
        × (◌≢◌ {A = ℕ} 80 0
            → ◌≢◌ {A = ℕ} 0 0
            → fd_table_open private_files 7 1 80 (0, 400) ≡ (0, none, private_files))
        × (◌≢◌ {A = ℕ} 80 0
            → ◌≡◌ {A = ℕ} 0 0
            → (s' : Files) × (fd_table_open private_files 7 1 80 (0, 400) ≡ (0, some fd, s'))
              × (s'.fds 7 fd ≡ 80)
              × (s'.file 80 ≡ new_file 1 400)
              × ((j : ℕ) → j ≢ fd → s'.fds 7 j ≡ private_files.fds 7 j)
              × ((g : ℕ)
                  → private_files.alive g ≡ true
                  → (s'.file g ≡ private_files.file g) × (s'.alive g ≡ true))
              × IsPrivate s' 7))
fd_table_open_lowest_example = fd_table_open_lowest private_files-IsPrivate 1 80 400 0 refl

fd_table_close_frees_example :
    ((private_files.fds 7 2 ≢ 0 → ◌≤◌ 20 2)
      → fd_table_close private_files 7 2 ≡ done (ebadf, private_files))
    × (InUse private_files 7 2
        → (s' : Files) × (fd_table_close private_files 7 2 ≡ done (0, s'))
          × ((j : ℕ) → s'.fds 7 j ≡ (if j == 2 then 0 else private_files.fds 7 j))
          × ((g : ℕ) → s'.alive g ≡ (not (g == private_files.fds 7 2) && private_files.alive g))
          × ((g : ℕ) → g ≢ private_files.fds 7 2 → s'.file g ≡ private_files.file g)
          × (s'.closed ≡ (file_at private_files 7 2).vn ∷ private_files.closed)
          × IsPrivate s' 7)
fd_table_close_frees_example = fd_table_close_frees 2 private_files-IsPrivate

fd_table_destroy_frees_example :
    (s' : Files) × (fd_table_destroy private_files 7 ≡ done s')
    × ((j : ℕ) → InUse private_files 7 j → s'.alive (private_files.fds 7 j) ≡ false)
    × ((g : ℕ)
        → ((j : ℕ) → InUse private_files 7 j → private_files.fds 7 j ≢ g)
        → s'.alive g ≡ private_files.alive g)
    × (s'.closed ≡ reverse_aux (vnodes private_files 7 20 0) private_files.closed)
    × ((u : ℕ) → s'.tables u ≡ (if u == 7 then false else private_files.tables u))
fd_table_destroy_frees_example = fd_table_destroy_frees private_files-IsPrivate (omega arith) refl

share_fork_example :
    (s' : Files) × (share 20 0 7 9 private_files ≡ done s')
    × Shared private_files 7 9 0 20 s'
    × ((j : ℕ) → InUse private_files 7 j → (s'.file (private_files.fds 7 j)).ref_count ≡ 2)
share_fork_example = share_fork 7 9 (omega arith) private_files-IsPrivate

close_twice_dangles_example :
    (s' s'' : Files) × (fd_table_close shared_files 7 2 ≡ done (0, s'))
    × (fd_table_close s' 7 2 ≡ done (0, s''))
    × (fd_table_get s'' 8 5 ≡ (0, some (shared_files.fds 7 2)))
    × (s''.alive (shared_files.fds 7 2) ≡ false)
    × (fd_table_close s'' 8 5 ≡ panic)
close_twice_dangles_example =
    close_twice_dangles shared_files 7 8 2 5 (omega arith) (omega arith, omega arith)
      (omega arith, omega arith) refl refl refl
