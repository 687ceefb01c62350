-- ===== src/Files/Io.antt =====
-- kern/syscalls/file_syscall.c: `read`, `write`, `sys_open` and `sys_close`, with `mk_kuio`
-- (kern/userprog/uio.c) and its `struct uio` (kern/include/uio.h).
use cs350_os.Base.{
  ℕ, Outcome, Option, if◌then◌else◌, ◌+◌, leb, ◌==◌, ◌||◌, done, none, ◌^◌, ◌>>=◌, some, ◌-◌, ◌%◌,
  update,
}
use cs350_os.Base.Errno.{ebadf, efault}
use cs350_os.Files.{Files, follow, fd_table_open, fd_table_close, max_file_open}

pub data UioRw : Type 0 where
  uio_read : UioRw
  uio_write : UioRw

pub data UioSeg : Type 0 where
  uio_userspace : UioSeg
  uio_sysspace : UioSeg
  uio_userispace : UioSeg

-- `struct uio`, with the one `struct iovec` in it.
pub record Uio : Type 0 where
  pub base : ℕ
  pub len : ℕ
  pub offset : ℕ
  pub resid : ℕ
  pub segflg : UioSeg
  pub rw : UioRw
  pub space : ℕ

abbrev pub mk_kuio : ℕ → ℕ → ℕ → UioRw → Uio
mk_kuio kbuf len pos rw = record {
  base = kbuf;
  len = len;
  offset = pos;
  resid = len;
  segflg = uio_sysspace;
  rw = rw;
  space = 0;
}

abbrev pub o_rdonly : ℕ
o_rdonly = 0

abbrev pub o_wronly : ℕ
o_wronly = 1

-- What `VOP_READ` or `VOP_WRITE` does, on a state of its own: the file system, and the memory at the buffer. It
-- returns an error code and leaves the uio, or panics, as where the kernel faults on the buffer.
abbrev pub VnodeOp {ℓ} : Type ℓ → Type ℓ
VnodeOp S = S → ℕ → Uio → Outcome (ℕ × Uio × S)

-- The error code, `*retval` if it is written, the files and the state of the vnodes.
abbrev pub CallResult {ℓ} : Type ℓ → Type ℓ
CallResult S = Outcome (ℕ × Option ℕ × Files × S)

-- The tail that `read` and `write` share: the operation of the vnode, and on its success the new offset. An
-- `off_t` and an `int` are the 32 bits that hold them.
unfoldable pub transfer {ℓ} :
    {S : Type ℓ} → VnodeOp S → S → Files → ℕ → ℕ → ℕ → UioRw → CallResult S
transfer vop w s f buf nbytes rw = do
  x ← follow s f
  (code, u, w') ← vop w x.vn (mk_kuio buf nbytes (x.offset % 2 ^ 32) rw)
  if code == 0
      then done (
        0,
        some ((nbytes + 2 ^ 32 - u.resid) % 2 ^ 32),
        record s { file = update s.file f (record x { offset = u.offset % 2 ^ 32 }) },
        w',
      )
      else done (code, none, s, w')

-- `write` of a descriptor of table `t`.
unfoldable pub write {ℓ} : {S : Type ℓ} → VnodeOp S → S → Files → ℕ → ℕ → ℕ → ℕ → CallResult S
write vop w s t fd buf nbytes =
    if leb max_file_open fd || s.fds t fd == 0
    then done (ebadf, none, s, w)
    else if buf == 0 || (buf == 1073741824 || buf == 2147483648)
    then done (efault, none, s, w)
    else (follow s (s.fds t fd) >>= λ x.
        if x.flag == o_rdonly
        then done (ebadf, none, s, w)
        else transfer vop w s (s.fds t fd) buf nbytes uio_write)

unfoldable pub read {ℓ} : {S : Type ℓ} → VnodeOp S → S → Files → ℕ → ℕ → ℕ → ℕ → CallResult S
read vop w s t fd buf nbytes =
    if leb max_file_open fd
    then done (ebadf, none, s, w)
    else if buf == 0
    then done (efault, none, s, w)
    else if s.fds t fd == 0
    then done (ebadf, none, s, w)
    else (follow s (s.fds t fd) >>= λ x.
        if x.flag == o_wronly
        then done (ebadf, none, s, w)
        else transfer vop w s (s.fds t fd) buf nbytes uio_read)

-- `sys_open`, where `copied` is what `copyinstr` returns.
pub sys_open : ℕ → Files → ℕ → ℕ → ℕ → ℕ × ℕ → ℕ × Option ℕ × Files
sys_open copied s t flags f opened =
    if copied == 0 then fd_table_open s t flags f opened else (copied, none, s)

-- `sys_close`. Its -1 is written as the register that holds it.
pub sys_close : Files → ℕ → ℕ → Outcome (ℕ × Files)
sys_close s t fd =
    if leb max_file_open fd || s.fds t fd == 0
    then done (ebadf, s)
    else (fd_table_close s t fd >>= λ (code, s'). done ((if code == 0 then 0 else 2 ^ 32 - 1), s'))
