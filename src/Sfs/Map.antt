-- ===== src/Sfs/Map.antt =====
-- kern/fs/sfs/sfs_vnode.c: `sfs_bmap`, from the blocks of a file to the blocks of the disk. Of the
-- static buffer `idbuf` no byte is read that has not been written in the same call.
pub mod Slots
pub mod Extend
pub mod Grow
pub mod Alloc
pub mod Look
use cs350_os.Base.{
  ℕ, ◌+◌, ◌-◌, ◌/◌, ◌%◌, Bool, true, Option, none, some, Outcome, done, panic, deref, ◌>>=◌, ltb,
  ◌==◌, not, ◌&&◌, if◌then◌else◌,
}
use cs350_os.Base.Errno.{einval}
use cs350_os.Sfs.{
  SfsFs, SfsVnode, word, set_word, sfi_indirect, sfs_balloc, sfs_bused, sfs_rblock, sfs_wblock,
}

-- The end of `sfs_bmap`: `*diskblock` is set, of a block that is not marked free.
pub hand_back : SfsFs → SfsVnode → ℕ → Outcome (ℕ × Option ℕ × SfsFs × SfsVnode)
hand_back s sv block =
    if block == 0
    then done (0, some 0, s, sv)
    else (sfs_bused s block >>= λ used. if used then done (0, some block, s, sv) else panic)

-- A block number in the inode.
pub bmap_direct : SfsFs → SfsVnode → ℕ → Bool → Outcome (ℕ × Option ℕ × SfsFs × SfsVnode)
bmap_direct s sv fileblock doalloc =
    let block = word sv.sv_i (2 + fileblock) in
    if block == 0 && doalloc
    then (sfs_balloc s >>= λ (result, new, s').
        if result == 0
        then (deref new >>= λ b.
            hand_back s' (record sv { sv_i = set_word sv.sv_i (2 + fileblock) b; sv_dirty = true })
              b)
        else done (result, none, s', sv))
    else hand_back s sv block

-- A block number in the indirect block `idblock`, whose bytes are in `idbuf`.
pub bmap_entry :
    SfsFs → SfsVnode → ℕ → (ℕ → ℕ) → ℕ → Bool → Outcome (ℕ × Option ℕ × SfsFs × SfsVnode)
bmap_entry s sv idblock idbuf idoff doalloc =
    let block = word idbuf idoff in
    if block == 0 && doalloc
    then (sfs_balloc s >>= λ (result, new, s').
        if result == 0
        then (deref new >>= λ b. sfs_wblock s' (set_word idbuf idoff b) idblock >>= λ (result, s'').
            if result == 0 then hand_back s'' sv b else done (result, none, s'', sv))
        else done (result, none, s', sv))
    else hand_back s sv block

pub bmap_indirect : SfsFs → SfsVnode → ℕ → Bool → Outcome (ℕ × Option ℕ × SfsFs × SfsVnode)
bmap_indirect s sv idoff doalloc =
    let idblock = sfi_indirect sv.sv_i in
    if idblock == 0 && not doalloc
    then done (0, some 0, s, sv)
    else if idblock == 0
    then (sfs_balloc s >>= λ (result, new, s').
        if result == 0
        then (deref new >>= λ b.
            bmap_entry s' (record sv { sv_i = set_word sv.sv_i 17 b; sv_dirty = true }) b (λ a. 0)
              idoff doalloc)
        else done (result, none, s', sv))
    else (sfs_rblock s (λ a. 0) idblock >>= λ (result, idbuf, s').
        if result == 0
        then bmap_entry s' sv idblock idbuf idoff doalloc
        else done (result, none, s', sv))

-- The error code, `*diskblock` if it is written, the file system and the vnode.
pub sfs_bmap : SfsFs → SfsVnode → ℕ → Bool → Outcome (ℕ × Option ℕ × SfsFs × SfsVnode)
sfs_bmap s sv fileblock doalloc =
    if ltb fileblock 15
    then bmap_direct s sv fileblock doalloc
    else if ltb 0 ((fileblock - 15) / 128)
    then done (einval, none, s, sv)
    else bmap_indirect s sv ((fileblock - 15) % 128) doalloc
