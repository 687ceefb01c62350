-- ===== src/Files/Sharing.antt =====
-- What `fd_table_close` does to a file that several descriptors share, and to an entry that
-- `fd_table_get_me` lets through.
use cs350_os.Base.{ℕ, ◌≡◌, ◌≢◌, true, false, ◌<◌, done, ◌^◌, some, ◌+◌, panic, arith, refl}
use cs350_os.Base.Errno.{ebadf}
use cs350_os.Files.{Files, fd_table_get, fd_table_get_me, fd_table_close, fd_table_close_me}
use cs350_os.Files.Frame.{InUse}
use cs350_os.Files.Close.{file_at, close_last, close_more, after_drop, after_last}

-- Closing a descriptor whose file has more references returns 0 and counts one reference less, but
-- leaves every entry of every table: the closed descriptor still refers to the file.
pub close_shared :
    (s : Files) (t fd : ℕ)
    → InUse s t fd
    → s.alive (s.fds t fd) ≡ true
    → 1 < (file_at s t fd).ref_count
    → (file_at s t fd).ref_count < 2 ^ 32
    → (s' : Files) × (fd_table_close s t fd ≡ done (0, s'))
      × (s'.fds ≡ s.fds)
      × ((file_at s' t fd).ref_count + 1 ≡ (file_at s t fd).ref_count)
      × (fd_table_get s' t fd ≡ (0, some (s.fds t fd)))
unfolding fd_table_get
close_shared s t fd used live more small =
    (after_drop s t fd, close_more s t fd used live more small, refl, ground arith, ground arith)

-- Where two tables hold a file with two references, closing the descriptor of the first table
-- twice returns 0 both times and frees the file; the second table's descriptor still refers to the
-- freed struct, and closing it is a fault.
pub close_twice_dangles :
    (s : Files) (t u fd e : ℕ)
    → t ≢ u
    → InUse s t fd
    → InUse s u e
    → s.fds u e ≡ s.fds t fd
    → s.alive (s.fds t fd) ≡ true
    → (file_at s t fd).ref_count ≡ 2
    → (s' s'' : Files) × (fd_table_close s t fd ≡ done (0, s'))
      × (fd_table_close s' t fd ≡ done (0, s''))
      × (fd_table_get s'' u e ≡ (0, some (s.fds t fd)))
      × (s''.alive (s.fds t fd) ≡ false)
      × (fd_table_close s'' u e ≡ panic)
unfolding fd_table_get fd_table_close
close_twice_dangles s t u fd e apart used other same live two =
    let s' : Files = after_drop s t fd in
    (
      s',
      after_last s' t fd,
      close_more s t fd used live (omega arith) (omega arith),
      close_last s' t fd used live (ground arith),
      ground arith,
      ground arith,
      ground arith,
    )

-- An entry in range that is empty: `fd_table_close` returns EBADF, and `fd_table_close_me` follows
-- the NULL pointer that `fd_table_get_me` hands it.
pub close_me_empty :
    (s : Files) (t fd : ℕ)
    → s.alive 0 ≡ false
    → fd < 20
    → s.fds t fd ≡ 0
    → (fd_table_close s t fd ≡ done (ebadf, s))
      × (fd_table_get_me s t fd ≡ (0, some 0))
      × (fd_table_close_me s t fd ≡ panic)
unfolding fd_table_close fd_table_get_me fd_table_close_me
close_me_empty s t fd null h empty = (ground arith, ground arith, ground arith)
