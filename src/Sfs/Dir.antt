-- ===== src/Sfs/Dir.antt =====
-- kern/fs/sfs/sfs_vnode.c: the entries of a directory. `m` is the kernel's memory; `sd` is the address of
-- the local `struct sfs_dir`, 64 bytes with the inode number first and the name from byte 4 on; a
-- name is a string in `m`.
pub mod Entry
pub mod Search
pub mod Lookup
mod Tests
use cs350_os.Base.{
  ℕ, zero, suc, ◌+◌, ◌-◌, ◌*◌, ◌/◌, ◌%◌, Bool, true, false, Option, none, some, Outcome, done,
  panic, assert, deref, ◌>>=◌, ◌>>◌, ltb, leb, ◌==◌, not, ◌&&◌, if◌then◌else◌, update,
}
use cs350_os.Base.Errno.{enoent, eexist, enametoolong}
use cs350_os.Files.Io.{uio_read, uio_write, mk_kuio}
use cs350_os.Strings.{strcmp, strlen, strcpy, Sign, less, equal, greater}
use cs350_os.Sfs.{SfsFs, SfsVnode, sfi_size, sfi_type, word, byte_of, no_space}
use cs350_os.Sfs.FileIo.{sfs_io}

-- The error code, the file system, the directory and the memory.
abbrev pub DirResult : Type 0
DirResult = Outcome (ℕ × SfsFs × SfsVnode × (ℕ → ℕ))

pub sfs_readdir : SfsFs → SfsVnode → (ℕ → ℕ) → ℕ → ℕ → DirResult
sfs_readdir s sv m sd slot =
    sfs_io no_space s sv m (mk_kuio sd 64 (slot * 64) uio_read) >>= λ (result, s', sv', m', u).
    if not (result == 0)
    then done (result, s', sv', m')
    else if ltb 0 u.resid
    then panic
    else done (0, s', sv', m')

-- `sfs_writedir`, of a slot that is not negative.
pub sfs_writedir : SfsFs → SfsVnode → (ℕ → ℕ) → ℕ → ℕ → DirResult
sfs_writedir s sv m sd slot =
    sfs_io no_space s sv m (mk_kuio sd 64 (slot * 64) uio_write) >>= λ (result, s', sv', m', u).
    if not (result == 0)
    then done (result, s', sv', m')
    else if ltb 0 u.resid
    then panic
    else done (0, s', sv', m')

pub sfs_dir_nentries : SfsVnode → Outcome ℕ
sfs_dir_nentries sv =
    assert (sfi_type sv.sv_i == 2)
    >> (if not (sfi_size sv.sv_i % 64 == 0) then panic else done (sfi_size sv.sv_i / 64))

-- `sd.sfd_ino`
pub sfd_ino : (ℕ → ℕ) → ℕ → ℕ
sfd_ino m sd = word (λ a. m (sd + a)) 0

-- What `sfs_dir_findname` has found so far: `ino` and `slot` if `found`, and the last empty slot.
pub record Found : Type 0 where
  pub found : Bool
  pub ino : ℕ
  pub slot : ℕ
  pub emptyslot : Option ℕ

abbrev pub is_equal : Sign → Bool
is_equal less = false
is_equal equal = true
is_equal greater = false

-- The entry of slot `i` is in the memory at `sd`. A terminator ends the name after 59 characters at most.
pub look_at : Found → (ℕ → ℕ) → ℕ → ℕ → ℕ → Outcome (Found × (ℕ → ℕ))
look_at f m sd name i =
    if sfd_ino m sd == 0
    then done (record f { emptyslot = some i }, m)
    else (let m' = update m (sd + 63) 0 in
        deref (strcmp 60 m' (sd + 4) name) >>= λ sign.
        if is_equal sign
        then assert (not f.found)
          >> done (record f { found = true; ino = sfd_ino m' sd; slot = i }, m')
        else done (f, m'))

-- The loop of `sfs_dir_findname`, with `n` slots left.
pub find_names :
    ℕ
    → ℕ
    → Found
    → SfsFs
    → SfsVnode
    → (ℕ → ℕ)
    → ℕ
    → ℕ
    → Outcome (ℕ × Found × SfsFs × SfsVnode × (ℕ → ℕ))
find_names zero i f s sv m sd name = done ((if f.found then 0 else enoent), f, s, sv, m)
find_names (suc n) i f s sv m sd name = sfs_readdir s sv m sd i >>= λ (result, s', sv', m').
    if not (result == 0)
    then done (result, f, s', sv', m')
    else (look_at f m' sd name i >>= λ (f', m''). find_names n (i + 1) f' s' sv' m'' sd name)

pub sfs_dir_findname :
    SfsFs → SfsVnode → (ℕ → ℕ) → ℕ → ℕ → Outcome (ℕ × Found × SfsFs × SfsVnode × (ℕ → ℕ))
sfs_dir_findname s sv m sd name = sfs_dir_nentries sv >>= λ nentries.
    find_names nentries 0 (record { found = false; ino = 0; slot = 0; emptyslot = none }) s sv m sd
      name

abbrev pub zero_entry : (ℕ → ℕ) → ℕ → ℕ → ℕ
zero_entry m sd a = if leb sd a && ltb a (sd + 64) then 0 else m a

-- `sd.sfd_ino = ino`
abbrev pub with_ino : (ℕ → ℕ) → ℕ → ℕ → ℕ → ℕ
with_ino m sd ino a = if leb sd a && ltb a (sd + 4) then byte_of ino (a - sd) else m a

-- The slot for a new entry: an empty one, or one at the end.
pub free_slot : Option ℕ → SfsVnode → Outcome ℕ
free_slot (some i) sv = done i
free_slot none sv = sfs_dir_nentries sv

-- `sfs_dir_link`: also `*slot` if it is written. `n` rounds are enough for the name.
pub sfs_dir_link :
    ℕ → SfsFs → SfsVnode → (ℕ → ℕ) → ℕ → ℕ → ℕ → Outcome (ℕ × Option ℕ × SfsFs × SfsVnode × (ℕ → ℕ))
sfs_dir_link n s sv m sd name ino = sfs_dir_findname s sv m sd name >>= λ (result, f, s', sv', m').
    if not (result == 0) && not (result == enoent)
    then done (result, none, s', sv', m')
    else if result == 0
    then done (eexist, none, s', sv', m')
    else (deref (strlen n m' name) >>= λ length.
        if ltb 60 (length + 1) then done (enametoolong, none, s', sv', m') else (do
          emptyslot ← free_slot f.emptyslot sv'
          m'' ← deref (strcpy n (with_ino (zero_entry m' sd) sd ino) (sd + 4) name)
          (code, s'', sv'', m3) ← sfs_writedir s' sv' m'' sd emptyslot
          done (code, some emptyslot, s'', sv'', m3)))

pub sfs_dir_unlink : SfsFs → SfsVnode → (ℕ → ℕ) → ℕ → ℕ → DirResult
sfs_dir_unlink s sv m sd slot = sfs_writedir s sv (zero_entry m sd) sd slot
