-- ===== src/Files.antt =====
-- kern/syscalls/fileDescriptor.c: the tables of open files, and the structs that they share.
pub mod Frame
pub mod Open
pub mod Close
pub mod Destroy
pub mod Sharing
pub mod Fork
pub mod Io
mod Tests
use cs350_os.Base.{
  ℕ, Bool, update, Outcome, Option, suc, List, if◌then◌else◌, ◌+◌, done, panic, leb, ◌==◌, none,
  ◌>>=◌, zero, some, ◌^◌, ◌%◌, ◌-◌, true, false, ◌∷◌, assert, ◌>>◌,
}
use cs350_os.Base.Errno.{enomem, emfile, ebadf}

-- `struct file`. A pointer is an address, and 0 is NULL.
pub record File : Type 0 where
  pub flag : ℕ
  pub offset : ℕ
  pub ref_count : ℕ
  pub vn : ℕ

-- The descriptors of each table (`fds t fd` for `t->fds[fd]`) and the tables that are allocated, the file structs
-- with the addresses that are allocated, and the vnodes given to `vfs_close`, the last one first. Only
-- `fd_table_destroy`, which frees a table, looks at whether it is allocated: the other functions take it so.
pub record Files : Type 0 where
  pub fds : ℕ → ℕ → ℕ
  pub tables : ℕ → Bool
  pub file : ℕ → File
  pub alive : ℕ → Bool
  pub closed : List ℕ

abbrev pub max_file_open : ℕ
max_file_open = 20

-- `t->fds[fd] = f`
abbrev pub set_fd : Files → ℕ → ℕ → ℕ → Files
set_fd s t fd f = record s { fds = update s.fds t (update (s.fds t) fd f) }

-- `f->...`
abbrev pub follow : Files → ℕ → Outcome File
follow s f = if s.alive f then done (s.file f) else panic

-- `fd_table_get`: the error code, and `*retval` if it is written. A negative `fd`, read as a
-- register, is above `MAX_FILE_OPEN`.
pub fd_table_get : Files → ℕ → ℕ → ℕ × Option ℕ
fd_table_get s t fd =
    if leb max_file_open fd
    then (ebadf, none)
    else (if s.fds t fd == 0 then (ebadf, none) else (0, some (s.fds t fd)))

-- `fd_table_get_me`: its second test has no `return`, so an empty entry is given out.
pub fd_table_get_me : Files → ℕ → ℕ → ℕ × Option ℕ
fd_table_get_me s t fd = if leb max_file_open fd then (ebadf, none) else (0, some (s.fds t fd))

-- The end of `fd_table_close` and of `fd_table_close_me`, from `f->ref_count--` on.
pub drop_ref : Files → ℕ → ℕ → ℕ → Outcome (ℕ × Files)
drop_ref s t fd f = do
  x ← follow s f
  let n = (x.ref_count + 2 ^ 32 - 1) % 2 ^ 32
  let s' = record s { file = update s.file f (record x { ref_count = n }) }
  if n == 0
      then done (
        0,
        set_fd (record s' { alive = update s.alive f false; closed = x.vn ∷ s.closed }) t fd 0,
      )
      else done (0, s')

pub fd_table_close : Files → ℕ → ℕ → Outcome (ℕ × Files)
unfolding fd_table_get drop_ref
fd_table_close s t fd =
    let (code, found) = fd_table_get s t fd in
    elim found [
      | none ↦ done (code, s)
      | some f ↦ if f == 0 then done (0, set_fd s t fd 0) else drop_ref s t fd f
    ]

pub fd_table_close_me : Files → ℕ → ℕ → Outcome (ℕ × Files)
unfolding fd_table_get_me drop_ref
fd_table_close_me s t fd =
    let (code, found) = fd_table_get_me s t fd in
    elim found [ none ↦ done (code, s) | some f ↦ drop_ref s t fd f ]

-- The loop of `fd_table_open`: the first empty entry, or `MAX_FILE_OPEN`, with `n` entries left.
pub first_free : Files → ℕ → ℕ → ℕ → ℕ
first_free s t zero fd = fd
first_free s t (suc n) fd =
    let rest = first_free s t n (fd + 1) in if s.fds t fd == 0 then fd else rest

-- `fd_table_open`. `f` is what `kmalloc` returns, and `opened` what `vfs_open` does: its error code
-- and the vnode. The result is the error code, `*retval` if it is written, and the files.
pub fd_table_open : Files → ℕ → ℕ → ℕ → ℕ × ℕ → ℕ × Option ℕ × Files
fd_table_open s t flag f opened =
    let fd = first_free s t max_file_open 0 in
    if leb max_file_open fd
    then (emfile, none, s)
    else if f == 0
    then (enomem, none, s)
    else if opened.0 == 0
    then (
      0,
      some fd,
      set_fd
          (record s {
            file =
                update s.file f (record { flag = flag; offset = 0; ref_count = 1; vn = opened.1 });
            alive = update s.alive f true;
          })
          t fd f,
    )
    else (opened.0, none, s)

-- The second loop of `fd_table_create`, with `n` rounds left: the console is opened for reading, and
-- twice for writing. `mem i` and `console i` are what `kmalloc` and `vfs_open` return in round `i`.
pub open_consoles : (ℕ → ℕ) → (ℕ → ℕ × ℕ) → ℕ → ℕ → Files → ℕ → ℕ × Files
open_consoles mem console zero i s t = (0, s)
open_consoles mem console (suc n) i s t =
    let (code, _, s') = fd_table_open s t (if i == 0 then 0 else 1) (mem i) (console i) in
    let rest = open_consoles mem console n (i + 1) s' t in if code == 0 then rest else (code, s')

-- `fd_table_create`, where `t` is what `kmalloc` returns for the table.
pub fd_table_create : Files → ℕ → (ℕ → ℕ) → (ℕ → ℕ × ℕ) → ℕ × Files
fd_table_create s t mem console =
    if t == 0
    then (enomem, s)
    else open_consoles mem console 3 0
        (record s { fds = update s.fds t (λ _. 0); tables = update s.tables t true }) t

-- The loop of `fd_table_destroy`, with `n` entries left. Errors of `fd_table_close` are ignored.
pub close_all : ℕ → ℕ → Files → ℕ → Outcome Files
close_all zero fd s t = done s
close_all (suc n) fd s t =
    (if s.fds t fd == 0 then done (0, s) else fd_table_close s t fd) >>= λ (_, s').
    close_all n (fd + 1) s' t

-- `fd_table_destroy` of table `t`, which may be NULL, with its `kfree(t)`. The pointer to the table stays.
pub fd_table_destroy : Files → ℕ → Outcome Files
fd_table_destroy s t =
    if t == 0
    then done s
    else assert (s.tables t)
      >> (close_all max_file_open 0 s t >>= λ s'.
          done (record s' { tables = update s'.tables t false }))

-- The loop of `md_forkentry` (kern/syscalls/process_syscall.c) that gives the child `u` the files of the
-- parent `t`, with `n` entries left.
pub share : ℕ → ℕ → ℕ → ℕ → Files → Outcome Files
share zero fd t u s = done s
share (suc n) fd t u s =
    let f = s.fds t fd in
    let s' = set_fd s u fd f in
    let skip = share n (fd + 1) t u s' in
    if f == 0
    then skip
    else (follow s' f >>= λ x. share n (fd + 1) t u (record s' {
      file = update s.file f (record x { ref_count = (x.ref_count + 1) % 2 ^ 32 });
    }))
