-- ===== src/Sfs/Truncate.antt =====
-- kern/fs/sfs/sfs_vnode.c: `sfs_truncate`, to a length that is not negative. Of the static buffer `idbuf`
-- no byte is read that has not been written in the same call.
pub mod Shrink
pub mod Direct
pub mod Lost
pub mod Entries
pub mod Sweep
pub mod Discards
pub mod Whole
use cs350_os.Base.{
  ℕ, zero, suc, ◌+◌, Bool, true, false, Outcome, done, ◌>>=◌, ltb, leb, ◌==◌, not, ◌&&◌, ◌||◌,
  if◌then◌else◌,
}
use cs350_os.Bitmap.{divroundup}
use cs350_os.Sfs.{SfsFs, SfsVnode, word, set_word, sfi_indirect, sfs_bfree, sfs_rblock, sfs_wblock}

-- The loop over the direct blocks, with `n` left.
pub trunc_direct : ℕ → ℕ → ℕ → SfsFs → SfsVnode → Outcome (SfsFs × SfsVnode)
trunc_direct zero i blocklen s sv = done (s, sv)
trunc_direct (suc n) i blocklen s sv =
    let block = word sv.sv_i (2 + i) in
    (if leb blocklen i && not (block == 0)
      then (sfs_bfree s block >>= λ s'.
          done (s', record sv { sv_i = set_word sv.sv_i (2 + i) 0; sv_dirty = true }))
      else done (s, sv))
    >>= λ (s', sv'). trunc_direct n (i + 1) blocklen s' sv'

-- The buffer of the indirect block, and what the loop over it has seen.
pub record IdBuf : Type 0 where
  pub idbuf : ℕ → ℕ
  pub hasnonzero : Bool
  pub iddirty : Bool

-- The body of the loop over the indirect block.
pub trunc_entry : ℕ → ℕ → SfsFs → IdBuf → Outcome (SfsFs × IdBuf)
trunc_entry j blocklen s b =
    let block = word b.idbuf j in
    (if ltb blocklen (15 + j) && not (block == 0)
      then (sfs_bfree s block >>= λ s'.
          done (s', record b { idbuf = set_word b.idbuf j 0; iddirty = true }))
      else done (s, b))
    >>= λ (s', b').
        done (s', record b' { hasnonzero = b'.hasnonzero || not (word b'.idbuf j == 0) })

-- The loop, with `n` numbers left.
pub trunc_entries : ℕ → ℕ → ℕ → SfsFs → IdBuf → Outcome (SfsFs × IdBuf)
trunc_entries zero j blocklen s b = done (s, b)
trunc_entries (suc n) j blocklen s b =
    trunc_entry j blocklen s b >>= λ (s', b'). trunc_entries n (j + 1) blocklen s' b'

pub trunc_indirect : ℕ → SfsFs → SfsVnode → Outcome (ℕ × SfsFs × SfsVnode)
trunc_indirect blocklen s sv =
    let idblock = sfi_indirect sv.sv_i in
    sfs_rblock s (λ a. 0) idblock >>= λ (result, idbuf, s1).
    if not (result == 0)
    then done (result, s1, sv)
    else (trunc_entries 128 0 blocklen s1
          (record { idbuf = idbuf; hasnonzero = false; iddirty = false })
        >>= λ (s2, b).
            if not b.hasnonzero
            then (sfs_bfree s2 idblock >>= λ s3.
                done (0, s3, record sv { sv_i = set_word sv.sv_i 17 0; sv_dirty = true }))
            else if b.iddirty
            then (sfs_wblock s2 b.idbuf idblock >>= λ (result, s3). done (result, s3, sv))
            else done (0, s2, sv))

-- `sfs_truncate`. `highblock` is 142.
pub sfs_truncate : SfsFs → SfsVnode → ℕ → Outcome (ℕ × SfsFs × SfsVnode)
sfs_truncate s sv len =
    let blocklen = divroundup len 512 in
    trunc_direct 15 0 blocklen s sv >>= λ (s1, sv1).
    (if ltb blocklen 142 && not (sfi_indirect sv1.sv_i == 0)
      then trunc_indirect blocklen s1 sv1
      else done (0, s1, sv1))
    >>= λ (result, s2, sv2).
        if result == 0
        then done (0, s2, record sv2 { sv_i = set_word sv2.sv_i 0 len; sv_dirty = true })
        else done (result, s2, sv2)
