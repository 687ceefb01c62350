-- ===== src/Sfs/FileIo.antt =====
-- kern/fs/sfs/sfs_vnode.c: `sfs_partialio`, `sfs_blockio` and `sfs_io`. A result is the error code, the
-- file system, the vnode, the memory that the uio names, and the uio. Offsets and sizes are less than
-- 2^31, so an `off_t` holds them. Of the static buffer `iobuf` no byte is read that has not been
-- written in the same call.
pub mod Edit
pub mod Steps
pub mod Blocks
pub mod Reads
pub mod WriteLoop
pub mod ReadLoop
pub mod Whole
pub mod Written
pub mod Back
use cs350_os.Base.{
  ℕ, zero, suc, ◌+◌, ◌-◌, ◌*◌, ◌/◌, ◌%◌, ◌^◌, Bool, true, Option, none, some, Outcome, done, panic,
  assert, deref, ◌>>=◌, ◌>>◌, ltb, leb, ◌==◌, not, ◌&&◌, if◌then◌else◌,
}
use cs350_os.Files.Io.{Uio}
use cs350_os.Uio.{Env, is_read, uiomove, uiomovezeros}
use cs350_os.Sfs.{SfsFs, SfsVnode, sfi_size, set_word, sfs_rblock, sfs_wblock, sfs_rwblock}
use cs350_os.Sfs.Map.{sfs_bmap}

abbrev pub IoResult : Type 0
IoResult = Outcome (ℕ × SfsFs × SfsVnode × (ℕ → ℕ) × Uio)

-- `sfs_partialio` once the block is in `iobuf`.
pub partial_move : Env → SfsFs → SfsVnode → (ℕ → ℕ) → Uio → ℕ → (ℕ → ℕ) → ℕ → ℕ → IoResult
partial_move env s sv m u diskblock iobuf skipstart len =
    uiomove env iobuf skipstart len m u >>= λ (result, iobuf', m', u').
    if not (result == 0)
    then done (result, s, sv, m', u')
    else if is_read u.rw
    then done (0, s, sv, m', u')
    else (sfs_wblock s iobuf' diskblock >>= λ (result, s'). done (result, s', sv, m', u'))

pub sfs_partialio : Env → SfsFs → SfsVnode → (ℕ → ℕ) → Uio → ℕ → ℕ → IoResult
sfs_partialio env s sv m u skipstart len =
    assert (leb (skipstart + len) 512)
    >> (sfs_bmap s sv (u.offset / 512) (not (is_read u.rw)) >>= λ (result, diskblock, s1, sv1).
        if not (result == 0)
        then done (result, s1, sv1, m, u)
        else (deref diskblock >>= λ b.
            if b == 0
            then assert (is_read u.rw) >> partial_move env s1 sv1 m u b (λ a. 0) skipstart len
            else (sfs_rblock s1 (λ a. 0) b >>= λ (result, iobuf, s2).
                if result == 0
                then partial_move env s2 sv1 m u b iobuf skipstart len
                else done (result, s2, sv1, m, u))))

-- `sfs_blockio` once the block is known, with the offset and the residue of the uio replaced and put back.
pub block_move : Env → SfsFs → SfsVnode → (ℕ → ℕ) → Uio → ℕ → IoResult
block_move env s sv m u diskblock =
    let diskoff = diskblock * 512 % 2 ^ 32 in
    assert (leb 512 u.resid)
    >> (sfs_rwblock env s.device m (record u { offset = diskoff; resid = 512 })
        >>= λ (result, m', u', d). done (
          result,
          record s { device = d },
          sv,
          m',
          record u' {
            offset = (u'.offset + 2 ^ 32 - diskoff + u.offset) % 2 ^ 32;
            resid = (u'.resid + 2 ^ 32 - 512 + u.resid) % 2 ^ 32;
          },
        ))

pub sfs_blockio : Env → SfsFs → SfsVnode → (ℕ → ℕ) → Uio → IoResult
sfs_blockio env s sv m u =
    sfs_bmap s sv (u.offset / 512) (not (is_read u.rw)) >>= λ (result, diskblock, s1, sv1).
    if not (result == 0)
    then done (result, s1, sv1, m, u)
    else (deref diskblock >>= λ b.
        if b == 0
        then assert (is_read u.rw)
          >> (uiomovezeros env 512 m u >>= λ (result, m', u'). done (result, s1, sv1, m', u'))
        else block_move env s1 sv1 m u b)

-- The loop over whole blocks, with `n` left.
pub io_blocks : ℕ → Env → SfsFs → SfsVnode → (ℕ → ℕ) → Uio → IoResult
io_blocks zero env s sv m u = done (0, s, sv, m, u)
io_blocks (suc n) env s sv m u = sfs_blockio env s sv m u >>= λ (result, s', sv', m', u').
    let rest = io_blocks n env s' sv' m' u' in
    if result == 0 then rest else done (result, s', sv', m', u')

-- `sfs_io` from the point at which the offset is at a block.
pub io_aligned : Env → SfsFs → SfsVnode → (ℕ → ℕ) → Uio → IoResult
io_aligned env s sv m u =
    assert (u.offset % 512 == 0)
    >> (io_blocks (u.resid / 512) env s sv m u >>= λ (result, s', sv', m', u').
        if not (result == 0)
        then done (result, s', sv', m', u')
        else assert (ltb u'.resid 512)
          >> (if ltb 0 u'.resid
              then sfs_partialio env s' sv' m' u' 0 u'.resid
              else done (0, s', sv', m', u')))

-- What follows the first part of a block.
pub after_first : Env → ℕ × SfsFs × SfsVnode × (ℕ → ℕ) × Uio → IoResult
after_first env (result, s', sv', m', u') =
    if not (result == 0)
    then done (result, s', sv', m', u')
    else if u'.resid == 0
    then done (0, s', sv', m', u')
    else io_aligned env s' sv' m' u'

-- `sfs_io` between the check for the end of the file and the label `out`.
pub io_body : Env → SfsFs → SfsVnode → (ℕ → ℕ) → Uio → IoResult
io_body env s sv m u =
    let blkoff = u.offset % 512 in
    if blkoff == 0
    then (if u.resid == 0 then done (0, s, sv, m, u) else io_aligned env s sv m u)
    else (sfs_partialio env s sv m u blkoff
          (if ltb u.resid (512 - blkoff) then u.resid else 512 - blkoff)
        >>= after_first env)

-- From the label `out` on.
pub io_out : ℕ → ℕ × SfsFs × SfsVnode × (ℕ → ℕ) × Uio → IoResult
io_out extraresid (result, s, sv, m, u) =
    let sv' : SfsVnode =
      if not (is_read u.rw) && ltb (sfi_size sv.sv_i) u.offset
      then record sv { sv_i = set_word sv.sv_i 0 u.offset; sv_dirty = true }
      else sv in
    done (result, s, sv', m, record u { resid = (u.resid + extraresid) % 2 ^ 32 })

pub sfs_io : Env → SfsFs → SfsVnode → (ℕ → ℕ) → Uio → IoResult
sfs_io env s sv m u =
    let size = sfi_size sv.sv_i in
    let extraresid = u.offset + u.resid - size in
    if is_read u.rw && leb size u.offset
    then done (0, s, sv, m, u)
    else if is_read u.rw && ltb size (u.offset + u.resid)
    then assert (ltb extraresid u.resid)
      >> (io_body env s sv m (record u { resid = u.resid - extraresid }) >>= io_out extraresid)
    else (io_body env s sv m u >>= io_out 0)

-- `sfs_read` and `sfs_write`.
pub sfs_read : Env → SfsFs → SfsVnode → (ℕ → ℕ) → Uio → IoResult
sfs_read env s sv m u = assert (is_read u.rw) >> sfs_io env s sv m u

pub sfs_write : Env → SfsFs → SfsVnode → (ℕ → ℕ) → Uio → IoResult
sfs_write env s sv m u = assert (not (is_read u.rw)) >> sfs_io env s sv m u
