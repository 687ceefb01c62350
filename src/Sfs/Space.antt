-- ===== src/Sfs/Space.antt =====
-- The allocation of blocks, on a disk that works.
use native.Mathlib.Decide.{dec_lt}
use cs350_os.Base.{
  ℕ, ◌^◌, ◌<◌, ◌≤◌, ◌≡◌, ◌≢◌, ◌⊎◌, inl, inr, true, false, ◌||◌, arith, done, some, none, ◌==◌, refl,
  leb, ne→==, Bool-cases, not, ◌&&◌, ap, ◌∙◌,
}
use cs350_os.Base.Errno.{enospc}
use cs350_os.Bitmap.Bits.{bit, IsValid}
use cs350_os.Bitmap.Alloc.{alloc_first}
use cs350_os.Bitmap.Ops.{isset-bit, unmark_bits}
use cs350_os.Files.Io.{uio_read, uio_write}
use cs350_os.Uio.{blit}
use cs350_os.Disk.{lhd_ok, Disk}
use cs350_os.Disk.Sector.{AtBlock, after_read, after_write, sector_read, one_sector}
use cs350_os.Sfs.{
  SfsFs, sp_nblocks, sfsuio, no_space, sfs_rwblock, sfs_rblock, sfs_wblock, sfs_clearblock,
  sfs_balloc, sfs_bused, sfs_bfree,
}
use cs350_os.Sfs.Retry.{write_done, tries_done}

-- A mounted file system on a disk that works: the freemap covers the blocks, and what it covers beyond
-- the end is marked, as mksfs does, and block 0, which is the superblock.
pub record IsFs (s : SfsFs) : Type 0 where
  pub map : IsValid s.freemap
  pub covers : sp_nblocks s ≤ s.freemap.nbits
  pub beyond : (j : ℕ) → sp_nblocks s ≤ j → j < s.freemap.nbits → bit s.freemap.v j ≡ true
  pub super_used : bit s.freemap.v 0 ≡ true
  pub on_disk : sp_nblocks s ≤ s.device.d_blocks
  pub small : s.device.d_blocks ≤ 2 ^ 22
  pub works : (j : ℕ) → s.device.status j ≡ lhd_ok

-- Input and output change neither the size of the disk nor what the card will answer.
pub IsFs-device :
    {s : SfsFs}
    → IsFs s
    → (d : Disk) → d.d_blocks ≡ s.device.d_blocks
    → d.status ≡ s.device.status
    → IsFs (record s { device = d })
IsFs-device {s} fs d blocks status = record {
  map = fs.map;
  covers = fs.covers;
  beyond = fs.beyond;
  super_used = fs.super_used;
  on_disk = omega (arith, fs.on_disk, blocks);
  small = omega (arith, fs.small, blocks);
  works = λ j. ap (λ st. st j) status ∙ fs.works j;
}

module _ (s : SfsFs) (works : (j : ℕ) → s.device.status j ≡ lhd_ok) (b : ℕ)
    (inside : b < s.device.d_blocks) (small : s.device.d_blocks ≤ 2 ^ 22) (buf : ℕ → ℕ) where
  pub rblock_ok :
      sfs_rblock s buf b
      ≡ done (0, blit buf 0 (s.device.sector b) 0 512, record s { device = after_read s.device b })
  unfolding sfs_rblock sfs_rwblock
  rblock_ok =
      let at : AtBlock s.device (sfsuio b uio_read) b = record {
        whole = refl;
        here = omega arith;
        inside = inside;
        small = small;
        fits = omega arith;
      } in
      rw
        (tries_done no_space s.device buf (sfsuio b uio_read) 10 (
          one_sector no_space s.device buf (sfsuio b uio_read) b at (
            sector_read no_space s.device buf (sfsuio b uio_read) b (inl (refl, refl)) at.fits refl
              refl (works s.device.started))))
        refl

  pub wblock_ok : sfs_wblock s buf b ≡ done (0, record s { device = after_write s.device b buf 0 })
  unfolding sfs_wblock
  wblock_ok =
      let at : AtBlock s.device (sfsuio b uio_write) b = record {
        whole = refl;
        here = omega arith;
        inside = inside;
        small = small;
        fits = omega arith;
      } in
      rw
        (write_done no_space s.device buf (sfsuio b uio_write) b (inl (refl, refl)) at refl
          (works s.device.started))
        refl

-- `b` has been allocated: it was free, and is marked and full of zeros; nothing else has changed.
pub record Fresh (s : SfsFs) (b : ℕ) (s' : SfsFs) : Type 0 where
  pub free : bit s.freemap.v b ≡ false
  pub inside : b < sp_nblocks s
  pub nonzero : b ≢ 0
  pub bits : (j : ℕ) → bit s'.freemap.v j ≡ ((j == b) || bit s.freemap.v j)
  pub zeros : (a : ℕ) → a < 512 → s'.device.sector b a ≡ 0
  pub others : (c : ℕ) → c ≢ b → s'.device.sector c ≡ s.device.sector c
  pub same_super : s'.super ≡ s.super
  pub IsFs' : IsFs s'

module _ (s : SfsFs) (fs : IsFs s) where
  open fs use {map, covers, beyond, super_used, on_disk, small, works}

  -- `sfs_balloc` on a disk that works: it returns a free block in range, marked and cleared, or
  -- every block is marked, and it returns ENOSPC and changes nothing.
  pub balloc_fresh :
      ((b : ℕ) × (s' : SfsFs) × (sfs_balloc s ≡ done (0, some b, s')) × Fresh s b s')
      ⊎ ((sfs_balloc s ≡ done (enospc, none, s))
          × ((b : ℕ) → b < sp_nblocks s → bit s.freemap.v b ≡ true))
  unfolding sfs_balloc sfs_clearblock
  balloc_fresh = elim (alloc_first map) [
    | inr (full, all) ↦ inr (rw full refl, λ b h. all b (omega (arith, covers)))
    | inl (b, map', e, lt, clear, first, valid', nbits', bits') ↦
        let inside : b < sp_nblocks s = elim (dec_lt b (sp_nblocks s)) [
          | yes p ↦ p
          | no p ↦ absurd (ground (arith, beyond b (omega arith) lt, clear))
        ] in
        let s1 : SfsFs = record s { freemap = map'; freemapdirty = true } in
        let in_range : leb (sp_nblocks s) b ≡ false = ground arith in
        let wrote = wblock_ok s1 works b (omega (arith, inside, on_disk)) small (λ a. 0) in
        inl (
          b,
          record s1 { device = after_write s.device b (λ a. 0) 0 },
          rw (e, in_range, wrote) refl,
          record {
            free = clear;
            inside = inside;
            nonzero = λ z. absurd (ground (arith, super_used, clear, z));
            bits = bits';
            zeros = λ a h. ground arith;
            others = λ c ne. rw (ne→== c b ne) refl;
            same_super = refl;
            IsFs' = record {
              map = valid';
              covers = omega (arith, covers);
              beyond = λ j h k. ground (arith, bits' j, beyond j h);
              super_used = ground (arith, bits' 0, super_used);
              on_disk = on_disk;
              small = small;
              works = works;
            };
          },
        )
  ]

  pub bused_lem : (b : ℕ) → b < sp_nblocks s → sfs_bused s b ≡ done (bit s.freemap.v b)
  unfolding sfs_bused
  bused_lem b h =
      let in_range : leb (sp_nblocks s) b ≡ false = ground arith in
      let (r, e, set, clear) = isset-bit map b (omega (arith, covers)) in
      rw (in_range, e)
        (elim (Bool-cases (bit s.freemap.v b)) [
          | inl yes_set ↦ rw (yes_set, ne→== r 0 (set yes_set)) refl
          | inr no_set ↦ rw (no_set, clear no_set) refl
        ])

  -- `sfs_bfree` of a block that is in use.
  pub bfree_lem :
      (b : ℕ)
      → b < sp_nblocks s
      → b ≢ 0
      → bit s.freemap.v b ≡ true
      → (s' : SfsFs) × (sfs_bfree s b ≡ done s')
        × IsFs s'
        × ((j : ℕ) → bit s'.freemap.v j ≡ (not (j == b) && bit s.freemap.v j))
        × (s'.device ≡ s.device)
        × (s'.super ≡ s.super)
  unfolding sfs_bfree
  bfree_lem b h nz set =
      let (map', e, valid', nbits', bits') = (unmark_bits map b (omega (arith, covers))).1 set in
      (
        record s { freemap = map'; freemapdirty = true },
        rw e refl,
        record {
          map = valid';
          covers = omega (arith, covers);
          beyond = λ j p q. ground (arith, bits' j, beyond j p);
          super_used = ground (arith, bits' 0, super_used);
          on_disk = on_disk;
          small = small;
          works = works;
        },
        bits',
        refl,
        refl,
      )
