-- ===== src/Sfs/Calls.antt =====
-- The system calls `read` and `write` (kern/syscalls/file_syscall.c) on files of the simple file system: `VOP_READ`
-- and `VOP_WRITE` of the tables `sfs_fileops` and `sfs_dirops` (kern/fs/sfs/sfs_vnode.c). The calls pass the
-- user's buffer on as kernel memory, so that a byte of it that is not mapped is a fault of the kernel.
pub mod Reads
pub mod Transfer
pub mod Writes
mod Tests
use cs350_os.Sfs.FileIo.{sfs_read, sfs_write}
use cs350_os.Sfs.{sfi_type, no_space}
use cs350_os.Sfs.Vnodes.{Pool, put_vnode, with_fs}
use cs350_os.Files.Io.{Uio, VnodeOp}
use cs350_os.Base.Errno.{eisdir}
use cs350_os.Base.{
  ℕ, Bool, true, Outcome, suc, ◌&&◌, assert, deref, ◌+◌, ◌-◌, ◌>>=◌, if◌then◌else◌, zero, ◌==◌,
  done, ◌>>◌,
}

-- The kernel can reach `n` bytes from `a` on.
pub reachable : (ℕ → Bool) → ℕ → ℕ → Bool
reachable mapped a zero = true
reachable mapped a (suc n) = mapped a && reachable mapped (a + 1) n

-- The kernel has moved bytes of `u` until `u'` is left.
abbrev pub touch : (ℕ → Bool) → Uio → Uio → Outcome (Unit {0})
touch mapped u u' = assert (reachable mapped u.base (u.resid - u'.resid))

pub vop_read : (ℕ → Bool) → VnodeOp (Pool × (ℕ → ℕ))
vop_read mapped (p, m) v u = deref (p.heap v) >>= λ sv.
    if sfi_type sv.sv_i == 2
    then done (eisdir, u, (p, m))
    else (sfs_read no_space p.fs sv m u >>= λ (result, s, sv', m', u').
        touch mapped u u' >> done (result, u', (put_vnode (with_fs p s) v sv', m')))

pub vop_write : (ℕ → Bool) → VnodeOp (Pool × (ℕ → ℕ))
vop_write mapped (p, m) v u = deref (p.heap v) >>= λ sv.
    if sfi_type sv.sv_i == 2
    then done (eisdir, u, (p, m))
    else (sfs_write no_space p.fs sv m u >>= λ (result, s, sv', m', u').
        touch mapped u u' >> done (result, u', (put_vnode (with_fs p s) v sv', m')))
