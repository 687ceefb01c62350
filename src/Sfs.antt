-- ===== src/Sfs.antt =====
-- kern/include/kern/sfs.h, kern/include/sfs.h, kern/fs/sfs/sfs_io.c, and the allocation of blocks in
-- kern/fs/sfs/sfs_vnode.c: the simple file system, on a disk of Disk. A structure on the disk or in a
-- buffer is its bytes; numbers are stored most significant byte first, as on the machine. A buffer of
-- the kernel is a memory of its own, from address 0 on.
pub mod Words
pub mod Retry
pub mod Space
pub mod Map
pub mod FileIo
pub mod Dir
pub mod Truncate
pub mod Vnodes
pub mod Names
pub mod Mount
pub mod Calls
pub mod Sample
mod Tests
use cs350_os.Base.{
  ℕ, zero, suc, ◌+◌, ◌*◌, ◌-◌, ◌%◌, ◌/◌, ◌^◌, ◌<◌, Bool, true, false, Option, none, some, Outcome,
  done, panic, assert, ◌>>=◌, ◌>>◌, ltb, leb, ◌==◌, not, ◌&&◌, if◌then◌else◌, update,
}
use cs350_os.Base.Errno.{einval, eio}
use cs350_os.Bitmap.{Bitmap, alloc, unmark, isset}
use cs350_os.Files.Io.{Uio, UioRw, uio_read, uio_write, mk_kuio}
use cs350_os.Uio.{Env}
use cs350_os.Disk.{Disk, lhd_io}

-- The 32-bit number at byte 4 * `k` of a structure, and the structure with it changed.
pub word : (ℕ → ℕ) → ℕ → ℕ
word b k = b (4 * k) * 2 ^ 24 + b (4 * k + 1) * 2 ^ 16 + b (4 * k + 2) * 2 ^ 8 + b (4 * k + 3)

pub byte_of : ℕ → ℕ → ℕ
byte_of v j =
    if j == 0
    then v / 2 ^ 24 % 256
    else if j == 1
    then v / 2 ^ 16 % 256
    else if j == 2
    then v / 2 ^ 8 % 256
    else v % 256

pub set_word : (ℕ → ℕ) → ℕ → ℕ → ℕ → ℕ
unfolding byte_of
set_word b k v a = if a / 4 == k then byte_of v (a % 4) else b a

-- The 16-bit number at byte 2 * `k`.
pub half : (ℕ → ℕ) → ℕ → ℕ
half b k = b (2 * k) * 2 ^ 8 + b (2 * k + 1)

pub set_half : (ℕ → ℕ) → ℕ → ℕ → ℕ → ℕ
set_half b k v a = if a / 2 == k then (if a % 2 == 0 then v / 2 ^ 8 % 256 else v % 256) else b a

-- The fields of `struct sfs_inode`: `sfi_direct` is words 2 to 16, and `sfi_indirect` word 17.
abbrev pub sfi_size : (ℕ → ℕ) → ℕ
sfi_size i = word i 0

abbrev pub sfi_type : (ℕ → ℕ) → ℕ
sfi_type i = half i 2

abbrev pub sfi_linkcount : (ℕ → ℕ) → ℕ
sfi_linkcount i = half i 3

abbrev pub sfi_indirect : (ℕ → ℕ) → ℕ
sfi_indirect i = word i 17

-- `struct sfs_vnode`, with the counts of its `struct vnode`.
pub record SfsVnode : Type 0 where
  pub sv_i : ℕ → ℕ
  pub sv_ino : ℕ
  pub sv_dirty : Bool
  pub vn_refcount : ℕ
  pub vn_opencount : ℕ

-- `struct sfs_fs`, less its table of vnodes. `sp_nblocks` is word 1 of the superblock.
pub record SfsFs : Type 0 where
  pub super : ℕ → ℕ
  pub superdirty : Bool
  pub device : Disk
  pub freemap : Bitmap
  pub freemapdirty : Bool

abbrev pub sp_nblocks : SfsFs → ℕ
sp_nblocks s = word s.super 1

-- `sfs_rwblock`, with `n` retries left.
pub rwblock_tries : ℕ → Env → Disk → (ℕ → ℕ) → Uio → Outcome (ℕ × (ℕ → ℕ) × Uio × Disk)
rwblock_tries zero env d m u = lhd_io env d m u >>= λ (result, m', u', d').
    if result == einval then panic else done (result, m', u', d')
rwblock_tries (suc n) env d m u = lhd_io env d m u >>= λ (result, m', u', d').
    let again = rwblock_tries n env d' m' u' in
    if result == einval then panic else if result == eio then again else done (result, m', u', d')

pub sfs_rwblock : Env → Disk → (ℕ → ℕ) → Uio → Outcome (ℕ × (ℕ → ℕ) × Uio × Disk)
unfolding rwblock_tries
sfs_rwblock env d m u = rwblock_tries 10 env d m u

-- A transfer of the kernel's own memory looks at no address space.
abbrev pub no_space : Env
no_space = record { t_vmspace = 0; fault = none }

-- `SFSUIO`
abbrev pub sfsuio : ℕ → UioRw → Uio
sfsuio block rw = mk_kuio 0 512 (block * 512 % 2 ^ 32) rw

-- `sfs_rblock` into the buffer `buf`.
pub sfs_rblock : SfsFs → (ℕ → ℕ) → ℕ → Outcome (ℕ × (ℕ → ℕ) × SfsFs)
unfolding sfs_rwblock
sfs_rblock s buf block =
    sfs_rwblock no_space s.device buf (sfsuio block uio_read) >>= λ (result, buf', u, d).
    done (result, buf', record s { device = d })

pub sfs_wblock : SfsFs → (ℕ → ℕ) → ℕ → Outcome (ℕ × SfsFs)
unfolding sfs_rwblock
sfs_wblock s buf block =
    sfs_rwblock no_space s.device buf (sfsuio block uio_write) >>= λ (result, buf', u, d).
    done (result, record s { device = d })

pub sfs_clearblock : SfsFs → ℕ → Outcome (ℕ × SfsFs)
sfs_clearblock s block = sfs_wblock s (λ a. 0) block

pub sfs_sync_inode : SfsFs → SfsVnode → Outcome (ℕ × SfsFs × SfsVnode)
sfs_sync_inode s sv =
    if sv.sv_dirty
    then (sfs_wblock s sv.sv_i sv.sv_ino >>= λ (result, s').
        if result == 0 then done (0, s', record sv { sv_dirty = false }) else done (result, s', sv))
    else done (0, s, sv)

-- The error code, `*diskblock` if it is written, and the file system.
pub sfs_balloc : SfsFs → Outcome (ℕ × Option ℕ × SfsFs)
unfolding sfs_clearblock
sfs_balloc s = alloc s.freemap >>= λ (result, diskblock, freemap).
    if result == 0
    then (elim diskblock [
      | none ↦ panic
      | some b ↦
          if leb (sp_nblocks s) b
          then panic
          else (sfs_clearblock (record s { freemap = freemap; freemapdirty = true }) b
              >>= λ (code, s'). done (code, some b, s'))
    ])
    else done (result, diskblock, record s { freemap = freemap })

pub sfs_bfree : SfsFs → ℕ → Outcome SfsFs
sfs_bfree s diskblock = unmark s.freemap diskblock >>= λ freemap.
    done (record s { freemap = freemap; freemapdirty = true })

pub sfs_bused : SfsFs → ℕ → Outcome Bool
sfs_bused s diskblock =
    if leb (sp_nblocks s) diskblock
    then panic
    else (isset s.freemap diskblock >>= λ bit. done (not (bit == 0)))
