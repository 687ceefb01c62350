-- ===== src/Sfs/Mount/Tests.antt =====
-- The free map of the file system of Sfs/Sample, in one sector.
use cs350_os.Sfs.Mount.Sync.{Syncable, sync-domount}
use cs350_os.Sfs.Vnodes.{Pool}
use cs350_os.Files.Io.{uio_write, uio_read}
use cs350_os.Base.{
  ◌∷◌, true, replicate, ◌≡◌, done, refl, arith, sym, ap, ◌*◌, length, some, [], none, update, false,
  ℕ, ◌<◌, if◌then◌else◌, ◌==◌,
}
use cs350_os.Disk.{Disk}
use cs350_os.Sfs.{SfsFs, word}
use cs350_os.Bitmap.{Bitmap}
use cs350_os.Sfs.Sample.{sample_fs}
use cs350_os.Sfs.Mount.{sfs_mapio, bitblocks, load_map, sfs_sync, sfs_unmount, sfs_domount}
use cs350_os.Sfs.Mount.Map.{mapio-round}

abbrev one_sector_map : Bitmap
one_sector_map = record { nbits = 4096; v = 15 ∷ replicate 511 255 }

abbrev to_sync : SfsFs
to_sync = record sample_fs { freemap = one_sector_map; freemapdirty = true }

one_sector : bitblocks to_sync ≡ 1
unfolding word
one_sector = refl

mapio-round_example :
    (d : Disk) × (sfs_mapio to_sync uio_write ≡ done (0, record to_sync { device = d }))
    × ((b : Bitmap)
        → length b.v ≡ 512
        → (d' : Disk) × (sfs_mapio (record to_sync { device = d; freemap = b }) uio_read
            ≡ done
                (0, record to_sync { device = d'; freemap = record b { v = one_sector_map.v } })))
    × (d' : Disk) × (load_map true true (record to_sync { device = d })
        ≡ done (
          0,
          some (record {
            fs = record to_sync {
              device = d';
              freemap = record { nbits = bitblocks to_sync * 4096; v = one_sector_map.v };
            };
            vnodes = [];
            heap = λ a. none;
          }),
        ))
mapio-round_example =
    mapio-round to_sync (λ j. refl) (omega arith) (omega (arith, one_sector))
      (sym (ap (λ n. n * 512) one_sector))

-- The same file system with the magic number in its superblock, which is dirty too.
abbrev with_magic : SfsFs
with_magic = record to_sync {
  super = update (update (update (update sample_fs.super 0 171) 1 173) 2 240) 3 1;
  superdirty = true;
}

abbrev unloaded : Pool
unloaded = record { fs = with_magic; vnodes = []; heap = λ v. none }

with_magic-Syncable : Syncable with_magic
unfolding word
with_magic-Syncable = record {
  disk = record { small = omega arith; works = λ j. refl };
  room = omega arith;
  sized = refl;
  magic = refl;
  map_there = λ e. absurd cc;
  super_there = λ e. absurd cc;
}

sync-domount_example :
    (q : Pool) × (sfs_sync unloaded ≡ done (0, q))
    × (sfs_unmount q ≡ done 0)
    × (r : Pool) × (sfs_domount true true true q.fs.device ≡ done (0, some r))
    × (r.vnodes ≡ [])
    × (r.fs.freemap ≡ record { nbits = bitblocks with_magic * 4096; v = one_sector_map.v })
    × (r.fs.superdirty ≡ false)
    × (r.fs.freemapdirty ≡ false)
    × ((a : ℕ) → a < 512 → r.fs.super a ≡ (if a == 39 then 0 else with_magic.super a))
sync-domount_example = sync-domount unloaded with_magic-Syncable refl
