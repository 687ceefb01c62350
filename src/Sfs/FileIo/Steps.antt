-- ===== src/Sfs/FileIo/Steps.antt =====
-- Writing to one block of a file, on a disk that works.
use cs350_os.Sfs.Map.Alloc.{bmap_allocates}
use native.Mathlib.Decide.{ℕ_discrete}
use cs350_os.Base.{
  ℕ, ◌+◌, ◌-◌, ◌/◌, ◌%◌, ◌<◌, ◌≤◌, ◌≡◌, ◌≢◌, ◌⊎◌, false, ◌&&◌, done, arith, ltb, leb, ◌==◌,
  if◌then◌else◌, refl, ne→==, eq→==, ap, ◌*◌, inl, true, ◌∙◌, inr, sym, some,
}
use cs350_os.Base.Errno.{enospc}
use cs350_os.Files.Io.{Uio}
use cs350_os.Uio.{Env, is_read, blit, advance}
use cs350_os.Uio.Moves.{Reaches, uiomove_write}
use cs350_os.Disk.Sector.{after_read}
use cs350_os.Sfs.{SfsFs, SfsVnode}
use cs350_os.Sfs.Space.{wblock_ok, rblock_ok}
use cs350_os.Sfs.Map.Slots.{slot, IsFile, file_byte}
use cs350_os.Sfs.FileIo.{IoResult, partial_move, sfs_partialio}
use cs350_os.Sfs.FileIo.Edit.{Edits, stored, Edits-trans, Edits-same, stored-Edits, Extends-Edits}

-- The bytes of a file after `n` bytes have been written to it by a uio.
abbrev pub put : SfsFs → SfsVnode → (ℕ → ℕ) → Uio → ℕ → ℕ → ℕ
put s sv m u n p =
    if leb u.offset p && ltb p (u.offset + n) then m (u.base + (p - u.offset)) else file_byte s sv p

-- What a step of a write of `n` bytes does: it writes them, or the disk is full.
abbrev pub Writes : SfsFs → SfsVnode → (ℕ → ℕ) → Uio → ℕ → IoResult → Type 0
Writes s sv m u n r =
    ((s' : SfsFs) × (sv' : SfsVnode) × (r ≡ done (0, s', sv', m, advance u n))
      × Edits s sv (put s sv m u n) s' sv')
    ⊎ ((s' : SfsFs) × (sv' : SfsVnode) × (r ≡ done (enospc, s', sv', m, u))
        × Edits s sv (file_byte s sv) s' sv')

-- Block `k` of a file as `sfs_partialio` reads it, and as it writes it back.
abbrev pub block_buf : SfsFs → SfsVnode → ℕ → ℕ → ℕ
block_buf s sv k = blit (λ a. 0) 0 (s.device.sector (slot s sv k)) 0 512

abbrev pub new_block : SfsFs → SfsVnode → ℕ → ℕ → (ℕ → ℕ) → Uio → ℕ → ℕ → ℕ
new_block s sv k skip m u len =
    blit (s.device.sector (slot s sv k)) 0 (blit (block_buf s sv k) skip m u.base len) 0 512

module _ (s : SfsFs) (sv : SfsVnode) (file : IsFile s sv) (k : ℕ) (in_file : k < 143)
    (mapped : slot s sv k ≢ 0) where
  pub block_inside : slot s sv k < s.device.d_blocks
  block_inside = omega (arith, (file.used k (omega arith) mapped).0, file.fs.on_disk)

  pub partial_move_write :
      (env : Env) (m : ℕ → ℕ) (u : Uio) (skip len : ℕ)
      → 0 < len
      → Reaches env u len
      → len ≤ u.len
      → len ≤ u.resid
      → is_read u.rw ≡ false
      → partial_move env
          (record s { device = after_read s.device (slot s sv k) })
          sv
          m
          u
          (slot s sv k)
          (block_buf s sv k)
          skip
          len
        ≡ done (
          0,
          stored s sv k
              (new_block s sv k skip m u len)
              (new_block s sv k skip m u len)
              (s.device.started + 1 + 1),
          sv,
          m,
          advance u len,
        )
  unfolding partial_move
  partial_move_write env m u skip len pos reach fits left dir =
      let s2 : SfsFs = record s { device = after_read s.device (slot s sv k) } in
      rw
        (
          uiomove_write env (block_buf s sv k) skip len m u pos reach fits left dir,
          dir,
          wblock_ok s2 file.fs.works (slot s sv k) block_inside file.fs.small
              (blit (block_buf s sv k) skip m u.base len),
        )
        refl

  -- The block holds the bytes of the file, with those of the uio.
  new_block_byte :
      (m : ℕ → ℕ) (u : Uio) (len p : ℕ)
      → u.offset / 512 ≡ k
      → u.offset % 512 + len ≤ 512
      → (if p / 512 == k
          then new_block s sv k (u.offset % 512) m u len (p % 512)
          else file_byte s sv p)
        ≡ put s sv m u len p
  new_block_byte m u len p at fits = elim (ℕ_discrete (p / 512) k) [
    | yes e ↦
        let here : file_byte s sv p ≡ s.device.sector (slot s sv k) (p % 512) =
          rw (e, ne→== (slot s sv k) 0 mapped) refl in
        rw (eq→== (p / 512) k e, here)
          (let same : u.base + (p % 512 - u.offset % 512) ≡ u.base + (p - u.offset) =
              omega (arith, e, at) in
            let small : p % 512 < 512 = omega arith in ground (arith, ap m same, e, at))
    | no ne ↦ rw (ne→== (p / 512) k ne) (ground arith)
  ]

-- What is written over the same bytes gives the same bytes.
pub put_same :
    (s : SfsFs) (sv : SfsVnode) (s' : SfsFs) (sv' : SfsVnode) (m : ℕ → ℕ) (u : Uio) (n p : ℕ)
    → file_byte s' sv' p ≡ file_byte s sv p
    → put s' sv' m u n p ≡ put s sv m u n p
put_same s sv s' sv' m u n p e = ground arith

module _ (env : Env) (s : SfsFs) (sv : SfsVnode) (file : IsFile s sv) (m : ℕ → ℕ) (u : Uio)
    (len : ℕ) (pos : 0 < len) (reach : Reaches env u len) (fits : len ≤ u.len)
    (left : len ≤ u.resid) (dir : is_read u.rw ≡ false) (in_file : u.offset < 143 * 512) where
  -- Once a block is mapped, it is stored with the bytes of the uio.
  pub stored-Writes :
      (s1 : SfsFs) (sv1 : SfsVnode) (contents buf : ℕ → ℕ) (n : ℕ) {r : IoResult}
      → Edits s sv (file_byte s sv) s1 sv1
      → slot s1 sv1 (u.offset / 512) ≢ 0
      → ((p : ℕ)
          → (if p / 512 == u.offset / 512 then contents (p % 512) else file_byte s1 sv1 p)
            ≡ put s1 sv1 m u len p)
      → r ≡ done (0, stored s1 sv1 (u.offset / 512) contents buf n, sv1, m, advance u len)
      → Writes s sv m u len r
  stored-Writes s1 sv1 contents buf n ext nz same e = inl (
    stored s1 sv1 (u.offset / 512) contents buf n,
    sv1,
    e,
    Edits-trans ext (
        Edits-same (put s sv m u len)
          (λ p h. same p ∙ put_same s sv s1 sv1 m u len p (ext.bytes p h))
          (stored-Edits s1 sv1 (u.offset / 512) contents buf n ext.IsFile' (omega arith) nz)),
  )

  -- A write to a part of a block.
  pub partial_Writes :
      u.offset % 512 + len ≤ 512
      → Writes s sv m u len (sfs_partialio env s sv m u (u.offset % 512) len)
  unfolding sfs_partialio
  partial_Writes one =
      let k : ℕ = u.offset / 512 in
      let room : leb (u.offset % 512 + len) 512 ≡ true = ground arith in
      elim (bmap_allocates s sv file k (omega arith)) [
        | inr (s1, sv1, e, ext, same) ↦ inr (s1, sv1, rw (room, dir, e) refl, Extends-Edits ext)
        | inl (b, s1, sv1, e, ext, here, nz, same) ↦
            let mapped : slot s1 sv1 k ≢ 0 = λ z. nz (sym here ∙ z) in
            let found = e ∙ ap (λ c. done (0, some c, s1, sv1)) (sym here) in
            let read =
              rblock_ok s1 ext.IsFile'.fs.works (slot s1 sv1 k)
                (block_inside s1 sv1 ext.IsFile' k (omega arith) mapped) ext.IsFile'.fs.small
                (λ a. 0) in
            let contents : ℕ → ℕ = new_block s1 sv1 k (u.offset % 512) m u len in
            stored-Writes s1 sv1 contents contents (s1.device.started + 1 + 1) (Extends-Edits ext)
              mapped
              (λ p. new_block_byte s1 sv1 ext.IsFile' k (omega arith) mapped m u len p refl one)
              (rw (room, dir, found, ne→== (slot s1 sv1 k) 0 mapped, read)
                (partial_move_write s1 sv1 ext.IsFile' k (omega arith) mapped env m u
                  (u.offset % 512) len pos reach fits left dir))
      ]
