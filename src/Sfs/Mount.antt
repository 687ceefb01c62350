-- ===== src/Sfs/Mount.antt =====
-- kern/fs/sfs/sfs_fs.c: reading and writing the free map, and syncing, unmounting and mounting a file system.
-- The map's bytes are those of `bitmap_getdata`.
pub mod Map
pub mod Sync
mod Tests
use cs350_os.Files.Io.{UioRw, uio_read, uio_write}
use cs350_os.Bitmap.{create}
use cs350_os.Uio.{blit}
use cs350_os.Base.Errno.{enomem, ebusy, einval}
use cs350_os.Disk.{Disk}
use cs350_os.Sfs.Vnodes.{Pool, sfs_fsync, with_fs}
use cs350_os.Base.{
  ℕ, List, Outcome, Bool, get_elem?, [], ◌+◌, done, ◌>>=◌, if◌then◌else◌, false, Option, ◌/◌, ◌*◌,
  not, suc, ◌∷◌, ◌==◌, none, zero, assert, some, ◌>>◌, update, ◌%◌, ◌^◌, leb, length,
}
use cs350_os.Sfs.{SfsFs, sp_nblocks, sfs_wblock, sfs_rblock, word}

-- The bytes of a list, as memory from its start on. What follows the list is not its own, and is not
-- looked at: see `fits`.
abbrev pub region : List ℕ → ℕ → ℕ
region v a = elim (get_elem? v a) [ none ↦ 0 | some x ↦ x ]

-- The list of the first `n` bytes of memory.
pub first_bytes : ℕ → (ℕ → ℕ) → List ℕ
first_bytes zero f = []
first_bytes (suc n) f = f 0 ∷ first_bytes n (λ a. f (a + 1))

-- `SFS_FS_BITBLOCKS`
abbrev pub bitblocks : SfsFs → ℕ
bitblocks s = (sp_nblocks s + 4095) % 2 ^ 32 / 4096

-- The 512 bytes at `ptr` for sector `j` lie in the map.
abbrev pub fits : List ℕ → ℕ → Bool
fits v j = leb (j * 512 + 512) (length v)

-- A sector is stored at `ptr`.
pub put_sector : List ℕ → ℕ → (ℕ → ℕ) → Outcome (List ℕ)
put_sector v j sector =
    assert (fits v j) >> done (first_bytes (length v) (blit (region v) (j * 512) sector 0 512))

-- The loop of `sfs_mapio` from sector `j` of the map on, with `n` sectors left, for each direction. A read that fails
-- has stored nothing; a write takes the bytes at `ptr` before the card is started.
pub read_map : ℕ → ℕ → SfsFs → List ℕ → Outcome (ℕ × List ℕ × SfsFs)
read_map zero j s v = done (0, v, s)
read_map (suc n) j s v =
    sfs_rblock s (λ a. region v (j * 512 + a)) (2 + j) >>= λ (result, sector, s').
    let rest = put_sector v j sector >>= λ v'. read_map n (j + 1) s' v' in
    if result == 0 then rest else done (result, v, s')

pub write_map : ℕ → ℕ → SfsFs → List ℕ → Outcome (ℕ × SfsFs)
write_map zero j s v = done (0, s)
write_map (suc n) j s v =
    assert (fits v j) >> sfs_wblock s (λ a. region v (j * 512 + a)) (2 + j) >>= λ (result, s').
    let rest = write_map n (j + 1) s' v in if result == 0 then rest else done (result, s')

-- The buffer of the map keeps its length.
pub sfs_mapio : SfsFs → UioRw → Outcome (ℕ × SfsFs)
sfs_mapio s uio_read = read_map (bitblocks s) 0 s s.freemap.v >>= λ (result, v, s').
    done (result, record s' { freemap = record s.freemap { v = v } })
sfs_mapio s uio_write = write_map (bitblocks s) 0 s s.freemap.v

-- The loop of `sfs_sync` over the vnodes, whose errors are not looked at.
pub sync_vnodes : List ℕ → Pool → Outcome Pool
sync_vnodes [] p = done p
sync_vnodes (v ∷ vs) p = sfs_fsync p v >>= λ (result, p'). sync_vnodes vs p'

pub sync_map : SfsFs → Outcome (ℕ × SfsFs)
sync_map s =
    if s.freemapdirty
    then (sfs_mapio s uio_write >>= λ (result, s').
        done (result, if result == 0 then record s' { freemapdirty = false } else s'))
    else done (0, s)

pub sync_super : SfsFs → Outcome (ℕ × SfsFs)
sync_super s =
    if s.superdirty
    then (sfs_wblock s s.super 0 >>= λ (result, s').
        done (result, if result == 0 then record s' { superdirty = false } else s'))
    else done (0, s)

pub sfs_sync : Pool → Outcome (ℕ × Pool)
sfs_sync p = sync_vnodes p.vnodes p >>= λ p1. sync_map p1.fs >>= λ (result, s1).
    if not (result == 0)
    then done (result, with_fs p1 s1)
    else (sync_super s1 >>= λ (result, s2). done (result, with_fs p1 s2))

-- `sfs_unmount`: on success everything is freed.
pub sfs_unmount : Pool → Outcome ℕ
sfs_unmount p = elim p.vnodes [
  | v ∷ vs ↦ done ebusy
  | [] ↦ assert (not p.fs.superdirty) >> assert (not p.fs.freemapdirty) >> done 0
]

-- The file system of `sfs_domount` before anything is read.
abbrev pub unread : Disk → SfsFs
unread dev = record {
  super = λ a. 0;
  superdirty = false;
  device = dev;
  freemap = record { nbits = 0; v = [] };
  freemapdirty = false;
}

-- The end of `sfs_domount`, with the superblock: the map is read. `first` and `second` tell whether `bitmap_create`
-- gets its memory.
pub load_map : Bool → Bool → SfsFs → Outcome (ℕ × Option Pool)
load_map first second s = create first second (bitblocks s * 4096) >>= λ freemap. elim freemap [
  | none ↦ done (enomem, none)
  | some b ↦ sfs_mapio (record s { freemap = b }) uio_read >>= λ (result, s').
      if not (result == 0)
      then done (result, none)
      else done (0, some (record { fs = s'; vnodes = []; heap = λ v. none }))
]

-- `sfs_domount` of a device with sectors of 512 bytes: the error code and the file system. `given` tells whether
-- there is memory for the struct and the array.
pub sfs_domount : Bool → Bool → Bool → Disk → Outcome (ℕ × Option Pool)
sfs_domount given first second dev =
    if not given
    then done (enomem, none)
    else (sfs_rblock (unread dev) (λ a. 0) 0 >>= λ (result, super, s).
        if not (result == 0)
        then done (result, none)
        else if not (word super 0 == 0xabadf001)
        then done (einval, none)
        else load_map first second (record s { super = update super 39 0 }))
