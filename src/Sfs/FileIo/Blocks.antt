-- ===== src/Sfs/FileIo/Blocks.antt =====
-- Writing a whole block of a file, on a disk that works.
use cs350_os.Sfs.FileIo.Edit.{Extends-Edits}
use native.Mathlib.Decide.{ℕ_discrete}
use cs350_os.Sfs.Map.Alloc.{bmap_allocates}
use cs350_os.Sfs.Retry.{write_done, tries_done}
use cs350_os.Sfs.FileIo.Steps.{Writes, put, block_inside, stored-Writes}
use cs350_os.Disk.Sector.{AtBlock, after_write, after_read, one_sector, sector_read}
use cs350_os.Sfs.Map.Slots.{IsFile, file_byte, slot}
use cs350_os.Sfs.{SfsFs, SfsVnode, sfs_rwblock}
use cs350_os.Uio.Moves.{Reaches}
use cs350_os.Files.Io.{Uio}
use cs350_os.Uio.{Env, advance, is_read, blit}
use cs350_os.Base.{
  ℕ, ◌+◌, ◌-◌, ◌*◌, ◌/◌, ◌%◌, ◌^◌, ◌<◌, ◌≤◌, ◌≡◌, ◌≢◌, true, false, done, arith, leb, ◌==◌,
  if◌then◌else◌, refl, ap, inr, eq→==, ne→==, inl, sym, ◌∙◌, some,
}
use cs350_os.Sfs.FileIo.{sfs_blockio, block_move}

-- A uio of which `n` bytes can be moved.
pub record Ready (env : Env) (u : Uio) (n : ℕ) : Type 0 where
  pub reach : Reaches env u n
  pub fits : n ≤ u.len
  pub left : n ≤ u.resid
  pub low : u.offset + u.resid < 2 ^ 31

-- What `sfs_blockio` puts back into the uio.
pub restored : Uio → ℕ → Uio → Uio
restored u diskoff u' = record u' {
  offset = (u'.offset + 2 ^ 32 - diskoff + u.offset) % 2 ^ 32;
  resid = (u'.resid + 2 ^ 32 - 512 + u.resid) % 2 ^ 32;
}

pub restored_lem :
    (u : Uio) (c : ℕ)
    → c < 2 ^ 31
    → 512 ≤ u.resid
    → u.offset + u.resid < 2 ^ 31
    → restored u c (advance (record u { offset = c; resid = 512 }) 512) ≡ advance u 512
unfolding restored
restored_lem u c small left low = ground arith

module _ (env : Env) (s : SfsFs) (sv : SfsVnode) (file : IsFile s sv) (m : ℕ → ℕ) (u : Uio)
    (ready : Ready env u 512) where
  open ready use {reach, fits, left, low}

  -- The uio that the device sees.
  abbrev pub disk_uio : ℕ → Uio
  disk_uio b = record u { offset = b * 512 % 2 ^ 32; resid = 512 }

  pub disk_uio-AtBlock : (b : ℕ) → b < s.device.d_blocks → AtBlock s.device (disk_uio b) b
  disk_uio-AtBlock b h = record {
    whole = refl;
    here = omega (arith, file.fs.small);
    inside = h;
    small = file.fs.small;
    fits = fits;
  }

  pub block_move_write :
      (b : ℕ)
      → b < s.device.d_blocks
      → is_read u.rw ≡ false
      → block_move env s sv m u b
        ≡ done (0, record s { device = after_write s.device b m u.base }, sv, m, advance u 512)
  unfolding block_move restored
  block_move_write b h dir =
      let room : leb 512 u.resid ≡ true = ground arith in
      let wrote =
        write_done env s.device m (disk_uio b) b reach (disk_uio-AtBlock b h) dir
          (file.fs.works s.device.started) in
      rw (room, wrote)
        (ap (λ x. done (0, record s { device = after_write s.device b m u.base }, sv, m, x))
          (restored_lem u (b * 512 % 2 ^ 32) (omega (arith, file.fs.small)) left low))

  pub block_move_read :
      (b : ℕ)
      → b < s.device.d_blocks
      → is_read u.rw ≡ true
      → block_move env s sv m u b
        ≡ done (
          0,
          record s { device = after_read s.device b },
          sv,
          blit m u.base (s.device.sector b) 0 512,
          advance u 512,
        )
  unfolding block_move restored sfs_rwblock
  block_move_read b h dir =
      let room : leb 512 u.resid ≡ true = ground arith in
      let got = tries_done env s.device m (disk_uio b) 10 (
        one_sector env s.device m (disk_uio b) b (disk_uio-AtBlock b h) (
          sector_read env s.device m (disk_uio b) b reach fits refl dir
            (file.fs.works s.device.started))) in
      rw (room, got)
        (ap
          (λ x. done (
            0,
            record s { device = after_read s.device b },
            sv,
            blit m u.base (s.device.sector b) 0 512,
            x,
          ))
          (restored_lem u (b * 512 % 2 ^ 32) (omega (arith, file.fs.small)) left low))

  new_bytes :
      (k : ℕ) (lh : ℕ → ℕ) (p : ℕ)
      → u.offset ≡ k * 512
      → (if p / 512 == k then blit lh 0 m u.base 512 (p % 512) else file_byte s sv p)
        ≡ put s sv m u 512 p
  new_bytes k lh p at = elim (ℕ_discrete (p / 512) k) [
    | yes e ↦
        let same : u.base + (p % 512) ≡ u.base + (p - u.offset) = omega (arith, e, at) in
        let small : p % 512 < 512 = omega arith in
        rw (eq→== (p / 512) k e) (ground (arith, ap m same, e, at))
    | no ne ↦ rw (ne→== (p / 512) k ne) (ground (arith, at, ne))
  ]

module _ (env : Env) (s : SfsFs) (sv : SfsVnode) (file : IsFile s sv) (m : ℕ → ℕ) (u : Uio)
    (ready : Ready env u 512) (dir : is_read u.rw ≡ false) (in_file : u.offset < 143 * 512)
    (at_block : u.offset % 512 ≡ 0) where
  open ready use {reach, fits, left}

  -- A write of a whole block.
  pub block_Writes : Writes s sv m u 512 (sfs_blockio env s sv m u)
  unfolding sfs_blockio
  block_Writes =
      let k : ℕ = u.offset / 512 in
      elim (bmap_allocates s sv file k (omega arith)) [
        | inr (s1, sv1, e, ext, same) ↦ inr (s1, sv1, rw (dir, e) refl, Extends-Edits ext)
        | inl (b, s1, sv1, e, ext, here, nz, same) ↦
            let mapped : slot s1 sv1 k ≢ 0 = λ z. nz (sym here ∙ z) in
            let found = e ∙ ap (λ c. done (0, some c, s1, sv1)) (sym here) in
            let inside = block_inside s1 sv1 ext.IsFile' k (omega arith) mapped in
            let contents : ℕ → ℕ = blit s1.device.lh_buf 0 m u.base 512 in
            stored-Writes env s sv file m u 512 (omega arith) reach fits left dir in_file s1 sv1
              contents contents (s1.device.started + 1) (Extends-Edits ext) mapped
              (λ p.
                new_bytes env s1 sv1 ext.IsFile' m u ready k s1.device.lh_buf p
                  (omega (arith, at_block)))
              (rw (dir, found, ne→== (slot s1 sv1 k) 0 mapped)
                (block_move_write env s1 sv1 ext.IsFile' m u ready (slot s1 sv1 k) inside dir))
      ]
