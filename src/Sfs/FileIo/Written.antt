-- ===== src/Sfs/FileIo/Written.antt =====
-- `sfs_write`, on a disk that works.
use cs350_os.Sfs.FileIo.WriteLoop.{body_Writes}
use cs350_os.Sfs.FileIo.Blocks.{Ready}
use cs350_os.Base.Errno.{enospc}
use cs350_os.Bitmap.Bits.{bit}
use cs350_os.Uio.{is_read, advance, Env}
use cs350_os.Sfs.FileIo.Steps.{put}
use cs350_os.Sfs.FileIo.Edit.{Edits}
use cs350_os.Sfs.Words.{word-set_word, half-set_word}
use cs350_os.Files.Io.{Uio}
use cs350_os.Sfs.Map.Slots.{slot, IsFile, file_byte}
use cs350_os.Sfs.{SfsFs, SfsVnode, set_word, sfi_size, half}
use cs350_os.Base.{
  ℕ, ◌+◌, ◌-◌, ◌*◌, ◌/◌, ◌%◌, ◌^◌, ◌<◌, ◌≤◌, ◌≡◌, ◌≢◌, ◌⊎◌, inl, inr, true, false, done, arith, ltb,
  if◌then◌else◌, refl, ◌∙◌, lt→ltb, Bool-cases, ltb→lt,
}
use cs350_os.Sfs.FileIo.{IoResult, io_out, sfs_io, sfs_write}

-- `n` bytes have been written to the file from a uio, and its size covers them.
pub record Wrote (s : SfsFs) (sv : SfsVnode) (m : ℕ → ℕ) (u : Uio) (n : ℕ) (s' : SfsFs)
    (sv' : SfsVnode) : Type 0 where
  pub IsFile' : IsFile s' sv'
  pub bytes : (p : ℕ) → p < 143 * 512 → file_byte s' sv' p ≡ put s sv m u n p
  pub size :
      sfi_size sv'.sv_i
      ≡ (if ltb (sfi_size sv.sv_i) (u.offset + n) then u.offset + n else sfi_size sv.sv_i)
  pub old : (j : ℕ) → j < 144 → slot s sv j ≢ 0 → slot s' sv' j ≡ slot s sv j
  pub frame :
      (c : ℕ)
      → bit s.freemap.v c ≡ true
      → ((j : ℕ) → j < 144 → slot s sv j ≢ c)
      → s'.device.sector c ≡ s.device.sector c
  pub still : (c : ℕ) → bit s.freemap.v c ≡ true → bit s'.freemap.v c ≡ true
  pub links : half sv'.sv_i 3 ≡ half sv.sv_i 3

abbrev resized : SfsVnode → ℕ → SfsVnode
resized sv x = record sv { sv_i = set_word sv.sv_i 0 x; sv_dirty = true }

-- The size is no part of the map.
slot_resized :
    (s : SfsFs) (sv : SfsVnode) (x j : ℕ) → x < 2 ^ 32 → slot s (resized sv x) j ≡ slot s sv j
unfolding slot
slot_resized s sv x j h =
    ground (arith, word-set_word sv.sv_i 0 x (2 + j) h, word-set_word sv.sv_i 0 x 17 h)

resized-IsFile :
    (s : SfsFs) (sv : SfsVnode) (x : ℕ) → x < 2 ^ 32 → IsFile s sv → IsFile s (resized sv x)
resized-IsFile s sv x small file = record {
  fs = file.fs;
  used = λ i h nz.
      rw (slot_resized s sv x i small) (file.used i h (λ z. nz (slot_resized s sv x i small ∙ z)));
  distinct = λ i j hi hj ne nz.
      rw (slot_resized s sv x i small, slot_resized s sv x j small)
        (file.distinct i j hi hj ne (λ z. nz (slot_resized s sv x i small ∙ z)));
}

module _ (s : SfsFs) (sv : SfsVnode) (m : ℕ → ℕ) (u : Uio) (n : ℕ) (s' : SfsFs) (sv' : SfsVnode)
    (low : u.offset + n < 2 ^ 31) (ed : Edits s sv (put s sv m u n) s' sv') where
  grown-Wrote : sfi_size sv.sv_i < u.offset + n → Wrote s sv m u n s' (resized sv' (u.offset + n))
  grown-Wrote more =
      let same : (j : ℕ) → slot s' (resized sv' (u.offset + n)) j ≡ slot s' sv' j =
        λ j. slot_resized s' sv' (u.offset + n) j (omega arith) in
      record {
        IsFile' = resized-IsFile s' sv' (u.offset + n) (omega arith) ed.IsFile';
        bytes = λ p h. rw (same (p / 512)) (ed.bytes p h);
        size = word-set_word sv'.sv_i 0 (u.offset + n) 0 (omega arith) ∙ rw (lt→ltb _ _ more) refl;
        old = λ j h nz. same j ∙ ed.old j h nz;
        frame = ed.frame;
        still = ed.still;
        links = half-set_word sv'.sv_i 0 (u.offset + n) 3 (omega arith) ∙ ed.kept.links;
      }

  kept-Wrote : u.offset + n ≤ sfi_size sv.sv_i → Wrote s sv m u n s' sv'
  kept-Wrote within =
      let same : ltb (sfi_size sv.sv_i) (u.offset + n) ≡ false = ground arith in
      record {
        IsFile' = ed.IsFile';
        bytes = ed.bytes;
        size = ed.kept.size ∙ rw same refl;
        old = ed.old;
        frame = ed.frame;
        still = ed.still;
        links = ed.kept.links;
      }

  -- The label `out` of a write.
  write_out :
      (code : ℕ)
      → is_read u.rw ≡ false
      → n ≤ u.resid
      → u.resid < 2 ^ 31
      → (sv'' : SfsVnode) × (io_out 0 (code, s', sv', m, advance u n)
          ≡ done (code, s', sv'', m, advance u n))
        × Wrote s sv m u n s' sv''
  unfolding io_out
  write_out code dir le small =
      let off : (u.offset + n) % 2 ^ 32 ≡ u.offset + n = omega arith in
      let left : ((u.resid + 2 ^ 32 - n) % 2 ^ 32 + 0) % 2 ^ 32 ≡ (u.resid + 2 ^ 32 - n) % 2 ^ 32 =
        omega arith in
      elim (Bool-cases (ltb (sfi_size sv.sv_i) (u.offset + n))) [
        | inl e ↦ (
          resized sv' (u.offset + n),
          rw (off, left, dir, ed.kept.size, e) refl,
          grown-Wrote (ltb→lt _ _ e),
        )
        | inr e ↦ (sv', rw (off, left, dir, ed.kept.size, e) refl, kept-Wrote (ground arith))
      ]

-- A write of `n` bytes: all are written, or ENOSPC is returned after `j` of them.
abbrev pub Written : SfsFs → SfsVnode → (ℕ → ℕ) → Uio → ℕ → IoResult → Type 0
Written s sv m u n r =
    ((s' : SfsFs) × (sv' : SfsVnode) × (r ≡ done (0, s', sv', m, advance u n))
      × Wrote s sv m u n s' sv')
    ⊎ ((j : ℕ) × (s' : SfsFs) × (sv' : SfsVnode) × (r ≡ done (enospc, s', sv', m, advance u j))
        × (j < n)
        × Wrote s sv m u j s' sv')

-- Let a file's blocks be in use and all different, and let a uio ask to write some bytes from memory that
-- can give them, ending within what an inode can map, on a disk that works. `sfs_write` returns 0
-- and has written all the bytes at the offset, or ENOSPC and has written a part of them. What it has
-- written follows the uio; the file's other bytes, the blocks that it had, its link count, and
-- every block in use that is not the file's are as before; its size is the larger of the old one
-- and the end of what was written; and its blocks are still in use and all different.
pub sfs_write-Written :
    (env : Env) (s : SfsFs) (sv : SfsVnode)
    → IsFile s sv
    → (m : ℕ → ℕ) (u : Uio) → Ready env u u.resid
    → 0 < u.resid
    → is_read u.rw ≡ false
    → u.offset + u.resid ≤ 143 * 512
    → Written s sv m u u.resid (sfs_write env s sv m u)
unfolding sfs_write sfs_io
sfs_write-Written env s sv file m u ready some_bytes dir fits =
    elim (body_Writes env s sv file m u ready dir fits some_bytes) [
      | inl (s', sv', e, ed) ↦
          let (sv'', ran, wrote) =
            write_out s sv m u u.resid s' sv' (omega (arith, ready.low)) ed 0 dir (omega arith)
              (omega (arith, ready.low)) in
          inl (s', sv'', rw (dir, e) ran, wrote)
      | inr (j, s', sv', e, lt, ed) ↦
          let (sv'', ran, wrote) =
            write_out s sv m u j s' sv' (omega (arith, ready.low, lt)) ed enospc dir
              (omega (arith, lt)) (omega (arith, ready.low)) in
          inr (j, s', sv'', rw (dir, e) ran, lt, wrote)
    ]
