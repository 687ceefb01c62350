-- ===== src/Sfs/Mount/Sync.antt =====
-- A file system that is synced and unmounted is mounted again as it was.
use cs350_os.Base.{
  ℕ, ◌≡◌, ◌+◌, ◌*◌, ◌≤◌, ◌<◌, ◌^◌, ◌==◌, true, false, inl, inr, done, none, some, arith, refl, sym,
  ap, ◌∙◌, length, [], if◌then◌else◌, Bool-cases, ne→==, update, ◌%◌, ◌/◌,
}
use cs350_os.Uio.{blit}
use cs350_os.Disk.{Disk}
use cs350_os.Disk.Sector.{after_write, after_read}
use cs350_os.Sfs.{SfsFs, word}
use cs350_os.Sfs.Words.{word-agree}
use cs350_os.Sfs.Space.{wblock_ok, rblock_ok}
use cs350_os.Sfs.Vnodes.{Pool}
use cs350_os.Sfs.Mount.{
  bitblocks, unread, sync_map, sync_super, sfs_sync, sfs_unmount, sfs_domount, sfs_mapio,
  sync_vnodes,
}
use cs350_os.Sfs.Mount.Map.{Works, HoldsMap, write_map_lem, load_back}

-- Sector 0 of the disk holds the superblock.
abbrev pub HoldsSuper : SfsFs → (ℕ → ℕ) → Type 0
HoldsSuper s super = (a : ℕ) → a < 512 → s.device.sector 0 a ≡ super a

-- A file system on a disk that works, with room for the sectors of its free map, which is of as many bytes as they
-- hold. What is not marked as dirty is on the disk.
pub record Syncable (s : SfsFs) : Type 0 where
  pub disk : Works s
  pub room : 2 + bitblocks s ≤ s.device.d_blocks
  pub sized : length s.freemap.v ≡ bitblocks s * 512
  pub magic : word s.super 0 ≡ 0xabadf001
  pub map_there : s.freemapdirty ≡ false → (c : ℕ) → c < bitblocks s → HoldsMap s s.freemap.v c
  pub super_there : s.superdirty ≡ false → HoldsSuper s s.super

-- What a sync of the map has done.
record MapSynced (s s' : SfsFs) : Type 0 where
  disk : Works s'
  blocks : s'.device.d_blocks ≡ s.device.d_blocks
  super : s'.super ≡ s.super
  superdirty : s'.superdirty ≡ s.superdirty
  sector : s'.device.sector 0 ≡ s.device.sector 0
  clean : s'.freemapdirty ≡ false
  holds : (c : ℕ) → c < bitblocks s → HoldsMap s' s.freemap.v c

-- What a sync of both has done.
record Synced (s s' : SfsFs) : Type 0 where
  disk : Works s'
  blocks : s'.device.d_blocks ≡ s.device.d_blocks
  superclean : s'.superdirty ≡ false
  clean : s'.freemapdirty ≡ false
  holds_super : HoldsSuper s' s.super
  holds : (c : ℕ) → c < bitblocks s → HoldsMap s' s.freemap.v c

module _ (s : SfsFs) (ok : Syncable s) where
  sync_map_lem : (s' : SfsFs) × (sync_map s ≡ done (0, s')) × MapSynced s s'
  unfolding sync_map sfs_mapio
  sync_map_lem = elim (Bool-cases s.freemapdirty) [
    | inl dirty ↦
        let (d, ran, w, blocks, super, all) =
          write_map_lem (bitblocks s) 0 s s.freemap.v ok.disk ok.room (omega (arith, ok.sized))
            (λ c h. absurd (omega (arith, h))) in
        (
          record s { device = d; freemapdirty = false },
          rw (ran, dirty) refl,
          record {
            disk = record { small = w.small; works = w.works };
            blocks = blocks;
            super = refl;
            superdirty = refl;
            sector = super;
            clean = refl;
            holds = λ c h. all c (omega (arith, h));
          },
        )
    | inr clean ↦ (
      s,
      rw clean refl,
      record {
        disk = ok.disk;
        blocks = refl;
        super = refl;
        superdirty = refl;
        sector = refl;
        clean = clean;
        holds = ok.map_there clean;
      },
    )
  ]

  sync_super_lem :
      (s1 : SfsFs) → MapSynced s s1 → (s' : SfsFs) × (sync_super s1 ≡ done (0, s')) × Synced s s'
  unfolding sync_super
  sync_super_lem s1 m = elim (Bool-cases s1.superdirty) [
    | inl dirty ↦
        let wrote =
          wblock_ok s1 m.disk.works 0 (omega (arith, ok.room, m.blocks)) m.disk.small s1.super in
        (
          record s1 { device = after_write s1.device 0 s1.super 0; superdirty = false },
          rw (wrote, dirty) refl,
          record {
            disk = record { small = m.disk.small; works = m.disk.works };
            blocks = m.blocks;
            superclean = refl;
            clean = m.clean;
            holds_super = λ a h. ground (arith, ap (λ f. f a) m.super);
            holds = λ c h a lt. rw (ne→== (2 + c) 0 (omega arith)) (m.holds c h a lt);
          },
        )
    | inr clean ↦ (
      s1,
      rw clean refl,
      record {
        disk = m.disk;
        blocks = m.blocks;
        superclean = clean;
        clean = m.clean;
        holds_super = λ a h. ap (λ f. f a) m.sector ∙ ok.super_there (sym m.superdirty ∙ clean) a h;
        holds = m.holds;
      },
    )
  ]

  -- The superblock as a mount reads it.
  abbrev read_super : Disk → ℕ → ℕ
  read_super d = blit (λ a. 0) 0 (d.sector 0) 0 512

  super_back : (s' : SfsFs) → Synced s s' → (a : ℕ) → a < 512 → read_super s'.device a ≡ s.super a
  super_back s' y a h = ground (arith, y.holds_super a h)

  blocks_back :
      (s' : SfsFs) → Synced s s' → word (update (read_super s'.device) 39 0) 1 ≡ word s.super 1
  unfolding word
  blocks_back s' y = ground (
    arith,
    super_back s' y 4 (omega arith),
    super_back s' y 5 (omega arith),
    super_back s' y 6 (omega arith),
    super_back s' y 7 (omega arith),
  )

  mount_lem :
      (s' : SfsFs)
      → Synced s s'
      → (r : Pool) × (sfs_domount true true true s'.device ≡ done (0, some r))
        × (r.vnodes ≡ [])
        × (r.fs.freemap ≡ record { nbits = bitblocks s * 4096; v = s.freemap.v })
        × (r.fs.superdirty ≡ false)
        × (r.fs.freemapdirty ≡ false)
        × ((a : ℕ) → a < 512 → r.fs.super a ≡ (if a == 39 then 0 else s.super a))
  unfolding sfs_domount
  mount_lem s' y =
      let s0 : SfsFs = record (unread s'.device) { device = after_read s'.device 0 } in
      let s2 : SfsFs = record s0 { super = update (read_super s'.device) 39 0 } in
      let got =
        rblock_ok (unread s'.device) y.disk.works 0 (omega (arith, ok.room, y.blocks)) y.disk.small
          (λ a. 0) in
      let back = super_back s' y in
      let magic : word (read_super s'.device) 0 ≡ 0xabadf001 =
        word-agree (read_super s'.device) s.super 0 back (omega arith) ∙ ok.magic in
      let words : word s2.super 1 ≡ word s.super 1 = blocks_back s' y in
      let same : bitblocks s2 ≡ bitblocks s = ap (λ n. (n + 4095) % 2 ^ 32 / 4096) words in
      let (d, loaded) =
        load_back s2 s.freemap.v (record { small = y.disk.small; works = y.disk.works })
          (omega (arith, ok.room, y.blocks, same)) (omega (arith, ok.sized, same))
          (λ c h. y.holds c (omega (arith, h, same))) in
      (
        record {
          fs = record s2 {
            device = d;
            freemap = record { nbits = bitblocks s2 * 4096; v = s.freemap.v };
          };
          vnodes = [];
          heap = λ a. none;
        },
        rw (got, magic, loaded) refl,
        refl,
        ap (λ n. record { nbits = n * 4096; v = s.freemap.v }) same,
        refl,
        refl,
        λ a h. ground (arith, back a h),
      )

-- Let a file system have no vnode in memory, be on a disk that works and has room for its free map, and let what
-- is not marked as dirty be on the disk. `sfs_sync` returns 0, after it `sfs_unmount` returns 0, and
-- a `sfs_domount` of the disk that has its memory returns 0 and a file system without vnodes, with nothing
-- dirty, with the same free map, and with the same superblock but for byte 39, the last of the name, which is 0.
pub sync-domount :
    (p : Pool)
    → Syncable p.fs
    → p.vnodes ≡ []
    → (q : Pool) × (sfs_sync p ≡ done (0, q))
      × (sfs_unmount q ≡ done 0)
      × (r : Pool) × (sfs_domount true true true q.fs.device ≡ done (0, some r))
      × (r.vnodes ≡ [])
      × (r.fs.freemap ≡ record { nbits = bitblocks p.fs * 4096; v = p.fs.freemap.v })
      × (r.fs.superdirty ≡ false)
      × (r.fs.freemapdirty ≡ false)
      × ((a : ℕ) → a < 512 → r.fs.super a ≡ (if a == 39 then 0 else p.fs.super a))
unfolding sfs_sync sync_vnodes sfs_unmount
sync-domount p ok empty =
    let (s1, ran1, m) = sync_map_lem p.fs ok in
    let (s2, ran2, y) = sync_super_lem p.fs ok s1 m in
    let (r, mounted, vnodes, map, super, clean, bytes) = mount_lem p.fs ok s2 y in
    (
      record p { fs = s2 },
      rw (empty, ran1, ran2) refl,
      rw (empty, y.superclean, y.clean) refl,
      r,
      mounted,
      vnodes,
      map,
      super,
      clean,
      bytes,
    )
