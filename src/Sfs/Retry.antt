-- ===== src/Sfs/Retry.antt =====
-- What `sfs_rwblock` does when the disk fails.
use cs350_os.Base.{
  ℕ, zero, suc, ◌+◌, ◌^◌, ◌<◌, ◌≤◌, ◌≡◌, true, false, arith, done, refl, ◌∙◌, ◌≢◌, inl, ne→==,
}
use cs350_os.Base.Errno.{eio}
use cs350_os.Files.Io.{Uio, uio_write}
use cs350_os.Uio.{Env, is_read, blit, advance}
use cs350_os.Uio.Moves.{Reaches}
use cs350_os.Disk.{Disk, lhd_ok, lhd_media, lhd_io}
use cs350_os.Disk.Sector.{
  AtBlock, after_read, after_write, sector_read, sector_write, media_read, media_write, one_sector,
  no_sector,
}
use cs350_os.Sfs.{rwblock_tries, sfs_rwblock, sfs_wblock, SfsFs, sfsuio, no_space}

abbrev pub tried : Disk → ℕ → Disk
tried d k = record d { started = d.started + k }

tried-AtBlock : {d : Disk} {u : Uio} {b : ℕ} (k : ℕ) → AtBlock d u b → AtBlock (tried d k) u b
tried-AtBlock k at = record {
  whole = at.whole;
  here = at.here;
  inside = at.inside;
  small = at.small;
  fits = at.fits;
}

-- A request that succeeds is not tried again, and one that meets a bad sector is.
module _ (env : Env) (d : Disk) (m : ℕ → ℕ) (u : Uio) {m' : ℕ → ℕ} {u' : Uio} {d' : Disk} where
  pub tries_done :
      (n : ℕ)
      → lhd_io env d m u ≡ done (0, m', u', d')
      → rwblock_tries n env d m u ≡ done (0, m', u', d')
  unfolding rwblock_tries
  tries_done zero e = rw e refl
  tries_done (suc n) e = rw e refl

  tries_again :
      (n : ℕ)
      → lhd_io env d m u ≡ done (eio, m', u', d')
      → rwblock_tries (suc n) env d m u ≡ rwblock_tries n env d' m' u'
  unfolding rwblock_tries
  tries_again n e = rw e refl

  tries_over :
      lhd_io env d m u ≡ done (eio, m', u', d') → rwblock_tries 0 env d m u ≡ done (eio, m', u', d')
  unfolding rwblock_tries
  tries_over e = rw e refl

module _ (env : Env) (m : ℕ → ℕ) (u : Uio) (b : ℕ) (reach : Reaches env u 512) where
  read_tries :
      (k n : ℕ) (d : Disk)
      → AtBlock d u b
      → is_read u.rw ≡ true
      → k ≤ n
      → ((j : ℕ) → j < k → d.status (d.started + j) ≡ lhd_media)
      → d.status (d.started + k) ≡ lhd_ok
      → rwblock_tries n env d m u
        ≡ done (0, blit m u.base (d.sector b) 0 512, advance u 512, after_read (tried d k) b)
  read_tries zero n d at dir le fails fine =
      let now : d.started + 0 ≡ d.started = omega arith in
      rw now (
        tries_done env d m u n (
          one_sector env d m u b at
            (sector_read env d m u b reach at.fits at.whole dir (rw now at fine))))
  read_tries (suc k) zero d at dir le fails fine = absurd (omega arith)
  read_tries (suc k) (suc n) d at dir le fails fine =
      let now : d.started + 0 ≡ d.started = omega arith in
      let shift : (j : ℕ) → d.started + suc j ≡ d.started + 1 + j = λ j. omega arith in
      let failed : lhd_io env d m u ≡ done (eio, m, u, tried d 1) =
        one_sector env d m u b at
          (media_read env d m u b dir (rw now at (fails 0 (omega arith)))) in
      let rest =
        read_tries k n (tried d 1) (tried-AtBlock 1 at) dir (omega arith)
          (λ j h. rw (← shift j) (fails (suc j) (omega arith))) (rw (← shift k) fine) in
      tries_again env d m u n failed ∙ rw (shift k) rest

  read_gives_up :
      (n : ℕ) (d : Disk)
      → AtBlock d u b
      → is_read u.rw ≡ true
      → ((j : ℕ) → j ≤ n → d.status (d.started + j) ≡ lhd_media)
      → rwblock_tries n env d m u ≡ done (eio, m, u, tried d (n + 1))
  read_gives_up zero d at dir fails =
      let now : d.started + 0 ≡ d.started = omega arith in
      tries_over env d m u
        (one_sector env d m u b at (media_read env d m u b dir (rw now at (fails 0 (omega arith)))))
  read_gives_up (suc n) d at dir fails =
      let now : d.started + 0 ≡ d.started = omega arith in
      let shift : (j : ℕ) → d.started + suc j ≡ d.started + 1 + j = λ j. omega arith in
      let failed : lhd_io env d m u ≡ done (eio, m, u, tried d 1) =
        one_sector env d m u b at
          (media_read env d m u b dir (rw now at (fails 0 (omega arith)))) in
      let more : d.started + (suc n + 1) ≡ d.started + 1 + (n + 1) = omega arith in
      let rest =
        read_gives_up n (tried d 1) (tried-AtBlock 1 at) dir
          (λ j h. rw (← shift j) (fails (suc j) (omega arith))) in
      tries_again env d m u n failed ∙ rw more rest

  -- Let a uio ask for one block of the disk to be read into memory that can take it, and let the disk
  -- answer its next requests with a bad sector or with success only. If at most ten requests fail
  -- before one succeeds, `sfs_rwblock` returns 0, has read the block, has moved the uio by 512
  -- bytes, and has made exactly those requests. If eleven fail, it returns EIO after exactly eleven
  -- requests, and has changed nothing else.
  pub rwblock_read_retries :
      (d : Disk)
      → AtBlock d u b
      → is_read u.rw ≡ true
      → ((k : ℕ)
          → k ≤ 10
          → ((j : ℕ) → j < k → d.status (d.started + j) ≡ lhd_media)
          → d.status (d.started + k) ≡ lhd_ok
          → sfs_rwblock env d m u
            ≡ done (
              0,
              blit m u.base (d.sector b) 0 512,
              advance u 512,
              record d { started = d.started + k + 1; lh_buf = d.sector b },
            ))
        × (((j : ℕ) → j ≤ 10 → d.status (d.started + j) ≡ lhd_media)
            → sfs_rwblock env d m u ≡ done (eio, m, u, record d { started = d.started + 11 }))
  unfolding sfs_rwblock
  rwblock_read_retries d at dir = (
    λ k le fails fine. read_tries k 10 d at dir le fails fine,
    λ fails. read_gives_up 10 d at dir fails,
  )

-- A write that meets a bad sector is tried again with a uio that asks for nothing more.
pub write_lost :
    (env : Env) (d : Disk) (m : ℕ → ℕ) (u : Uio) (b : ℕ)
    → Reaches env u 512
    → AtBlock d u b
    → is_read u.rw ≡ false
    → d.status d.started ≡ lhd_media
    → sfs_rwblock env d m u
      ≡ done (
        0,
        m,
        advance u 512,
        record d { started = d.started + 1; lh_buf = blit d.lh_buf 0 m u.base 512 },
      )
unfolding sfs_rwblock
write_lost env d m u b reach at dir fails =
    let failed =
      one_sector env d m u b at (media_write env d m u b reach at.fits at.whole dir fails) in
    let d' : Disk = record d { started = d.started + 1; lh_buf = blit d.lh_buf 0 m u.base 512 } in
    tries_again env d m u 9 failed
    ∙ tries_done env d' m (advance u 512) 9 (
        no_sector env d' m (advance u 512) (b + 1) (omega (arith, at.whole))
          (omega (arith, at.here, at.inside, at.small)) (omega (arith, at.inside)) at.small)

pub write_done :
    (env : Env) (d : Disk) (m : ℕ → ℕ) (u : Uio) (b : ℕ)
    → Reaches env u 512
    → AtBlock d u b
    → is_read u.rw ≡ false
    → d.status d.started ≡ lhd_ok
    → sfs_rwblock env d m u ≡ done (0, m, advance u 512, after_write d b m u.base)
unfolding sfs_rwblock
write_done env d m u b reach at dir fine =
    tries_done env d m u 10
      (one_sector env d m u b at (sector_write env d m u b reach at.fits at.whole dir fine))

-- `sfs_wblock` of a block of the disk returns 0 whether the disk takes the block at once or meets a
-- bad sector first: in the first case the block holds the bytes of the buffer and no other sector has
-- changed; in the second no sector has changed.
pub wblock_lost :
    (s : SfsFs) (buf : ℕ → ℕ) (b : ℕ)
    → b < s.device.d_blocks
    → s.device.d_blocks ≤ 2 ^ 22
    → (s.device.status s.device.started ≡ lhd_ok
        → (d : Disk) × (sfs_wblock s buf b ≡ done (0, record s { device = d }))
          × ((a : ℕ) → a < 512 → d.sector b a ≡ buf a)
          × ((c : ℕ) → c ≢ b → d.sector c ≡ s.device.sector c))
      × (s.device.status s.device.started ≡ lhd_media
          → (d : Disk) × (sfs_wblock s buf b ≡ done (0, record s { device = d }))
            × (d.sector ≡ s.device.sector))
unfolding sfs_wblock
wblock_lost s buf b inside small =
    let at : AtBlock s.device (sfsuio b uio_write) b = record {
      whole = refl;
      here = omega arith;
      inside = inside;
      small = small;
      fits = omega arith;
    } in
    (
      λ fine. (
        after_write s.device b buf 0,
        rw (write_done no_space s.device buf (sfsuio b uio_write) b (inl (refl, refl)) at refl fine)
            refl,
        λ a h. ground arith,
        λ c ne. rw (ne→== c b ne) refl,
      ),
      λ fails. (
        record s.device {
          started = s.device.started + 1;
          lh_buf = blit s.device.lh_buf 0 buf 0 512;
        },
        rw
            (write_lost no_space s.device buf (sfsuio b uio_write) b (inl (refl, refl)) at refl
              fails)
            refl,
        refl,
      ),
    )
