-- ===== src/Disk/Sector.antt =====
-- One sector of input or output, for each answer of the card.
use cs350_os.Base.{
  ℕ, ◌+◌, ◌*◌, ◌/◌, ◌%◌, ◌^◌, ◌<◌, ◌≤◌, ◌≡◌, true, false, arith, done, ◌==◌, refl, update, not,
  ◌||◌, ltb, Bool-cases, inl, ==→eq, inr,
}
use cs350_os.Base.Errno.{eio}
use cs350_os.Files.Io.{Uio}
use cs350_os.Uio.{is_read, Env, blit, advance}
use cs350_os.Uio.Moves.{Reaches, uiomove_read, uiomove_write}
use cs350_os.Disk.{Disk, lhd_ok, lhd_media, operate, lhd_sector, lhd_sectors, lhd_io}

-- Block `b` of the disk, at the offset of a uio that asks for one block.
pub record AtBlock (d : Disk) (u : Uio) (b : ℕ) : Type 0 where
  pub whole : u.resid ≡ 512
  pub here : u.offset ≡ b * 512
  pub inside : b < d.d_blocks
  pub small : d.d_blocks ≤ 2 ^ 22
  pub fits : 512 ≤ u.len

-- The disk after a sector has been read, or written from `m` at `a`.
abbrev pub after_read : Disk → ℕ → Disk
after_read d b = record d { started = d.started + 1; lh_buf = d.sector b }

abbrev pub after_write : Disk → ℕ → (ℕ → ℕ) → ℕ → Disk
after_write d b m a = record d {
  started = d.started + 1;
  lh_buf = blit d.lh_buf 0 m a 512;
  sector = update d.sector b (blit d.lh_buf 0 m a 512);
}

module _ (env : Env) (d : Disk) (m : ℕ → ℕ) (u : Uio) (b : ℕ) where
  pub sector_read :
      Reaches env u 512
      → 512 ≤ u.len
      → u.resid ≡ 512
      → is_read u.rw ≡ true
      → d.status d.started ≡ lhd_ok
      → lhd_sector env d b m u
        ≡ done (0, blit m u.base (d.sector b) 0 512, advance u 512, after_read d b)
  unfolding lhd_sector operate
  sector_read reach fits whole dir fine =
      rw
        (
          dir,
          fine,
          uiomove_read env (d.sector b) 0 512 m u (omega arith) reach fits (omega arith) dir,
        )
        refl

  pub sector_write :
      Reaches env u 512
      → 512 ≤ u.len
      → u.resid ≡ 512
      → is_read u.rw ≡ false
      → d.status d.started ≡ lhd_ok
      → lhd_sector env d b m u ≡ done (0, m, advance u 512, after_write d b m u.base)
  unfolding lhd_sector operate
  sector_write reach fits whole dir fine =
      rw
        (dir, uiomove_write env d.lh_buf 0 512 m u (omega arith) reach fits (omega arith) dir, fine)
        refl

  pub media_read :
      is_read u.rw ≡ true
      → d.status d.started ≡ lhd_media
      → lhd_sector env d b m u ≡ done (eio, m, u, record d { started = d.started + 1 })
  unfolding lhd_sector operate
  media_read dir fails = rw (dir, fails) refl

  pub media_write :
      Reaches env u 512
      → 512 ≤ u.len
      → u.resid ≡ 512
      → is_read u.rw ≡ false
      → d.status d.started ≡ lhd_media
      → lhd_sector env d b m u
        ≡ done (
          eio,
          m,
          advance u 512,
          record d { started = d.started + 1; lh_buf = blit d.lh_buf 0 m u.base 512 },
        )
  unfolding lhd_sector operate
  media_write reach fits whole dir fails =
      rw
        (
          dir,
          uiomove_write env d.lh_buf 0 512 m u (omega arith) reach fits (omega arith) dir,
          fails,
        )
        refl

  -- A request for one sector that is inside the disk is one round of the loop.
  pub one_sector :
      {code : ℕ} {m' : ℕ → ℕ} {u' : Uio} {d' : Disk}
      → AtBlock d u b
      → lhd_sector env d b m u ≡ done (code, m', u', d')
      → lhd_io env d m u ≡ done (code, m', u', d')
  unfolding lhd_io lhd_sectors
  one_sector {code} {m'} {u'} {d'} at e =
      let aligned : (not (u.offset % 512 == 0) || not (u.resid % 512 == 0)) ≡ false =
        ground (arith, at.here, at.whole) in
      let within : ltb d.d_blocks ((u.offset / 512 + u.resid / 512) % 2 ^ 32) ≡ false =
        ground (arith, at.here, at.whole, at.inside, at.small) in
      let once : u.resid / 512 ≡ 1 = omega (arith, at.whole) in
      let sect : u.offset / 512 ≡ b = omega (arith, at.here) in
      rw (aligned, within, once, sect, e)
        (elim (Bool-cases (code == 0)) [
          | inl z ↦ rw (z, ==→eq code 0 z) refl
          | inr nz ↦ rw nz refl
        ])

  -- A request for no sector, at a block boundary inside the disk or at its end.
  pub no_sector :
      u.resid ≡ 0
      → u.offset ≡ b * 512
      → b ≤ d.d_blocks
      → d.d_blocks ≤ 2 ^ 22
      → lhd_io env d m u ≡ done (0, m, u, d)
  unfolding lhd_io lhd_sectors
  no_sector none_left here inside small =
      let aligned : (not (u.offset % 512 == 0) || not (u.resid % 512 == 0)) ≡ false =
        ground (arith, here, none_left) in
      let within : ltb d.d_blocks ((u.offset / 512 + u.resid / 512) % 2 ^ 32) ≡ false =
        ground (arith, here, none_left, inside, small) in
      let never : u.resid / 512 ≡ 0 = omega (arith, none_left) in rw (aligned, within, never) refl
