-- ===== src/Sfs/Tests.antt =====
-- The theorems at the file system of Sample, and at a disk with bad sectors.
use cs350_os.Sfs.Truncate.Whole.{Truncated, sfs_truncate-Truncated}
use cs350_os.Sfs.Truncate.{sfs_truncate}
use cs350_os.Sfs.FileIo.Whole.{before_end, sfs_read-Reads}
use cs350_os.Sfs.FileIo.Back.{write_then_read, read-write}
use cs350_os.Sfs.FileIo.Reads.{Reads}
use cs350_os.Sfs.FileIo.{sfs_write, sfs_read}
use cs350_os.Sfs.Map.{sfs_bmap}
use cs350_os.Uio.{blit, advance}
use cs350_os.Sfs.FileIo.Written.{Written, sfs_write-Written}
use cs350_os.Sfs.FileIo.Blocks.{Ready}
use cs350_os.Sfs.Map.Alloc.{Maps, bmap_allocates}
use cs350_os.Disk.{lhd_media, lhd_ok, Disk}
use cs350_os.Disk.Sector.{AtBlock}
use cs350_os.Files.Io.{Uio, uio_read, mk_kuio, uio_write}
use cs350_os.Base.{ℕ, ◌+◌, ◌%◌, ◌<◌, ◌≤◌, ◌≡◌, ◌≢◌, ◌⊎◌, inl, true, done, arith, refl}
use cs350_os.Base.Errno.{eio, enospc}
use cs350_os.Sfs.{sfs_rwblock, sfs_wblock, no_space, sfsuio, word, sfi_size, SfsFs, SfsVnode}
use cs350_os.Sfs.Retry.{rwblock_read_retries, wblock_lost}
use cs350_os.Sfs.Sample.{sample_disk, sample_fs, sample_vnode, sample-IsFile}

abbrev blank : ℕ → ℕ
blank a = 0

abbrev read_3 : Uio
read_3 = sfsuio 3 uio_read

read_3-AtBlock : AtBlock sample_disk read_3 3
read_3-AtBlock = record {
  whole = refl;
  here = refl;
  inside = omega arith;
  small = omega arith;
  fits = omega arith;
}

rwblock_read_retries_example :
    ((k : ℕ)
      → k ≤ 10
      → ((j : ℕ) → j < k → sample_disk.status (0 + j) ≡ lhd_media)
      → sample_disk.status (0 + k) ≡ lhd_ok
      → sfs_rwblock no_space sample_disk blank read_3
        ≡ done (
          0,
          blit blank 0 (sample_disk.sector 3) 0 512,
          advance read_3 512,
          record sample_disk { started = 0 + k + 1; lh_buf = sample_disk.sector 3 },
        ))
    × (((j : ℕ) → j ≤ 10 → sample_disk.status (0 + j) ≡ lhd_media)
        → sfs_rwblock no_space sample_disk blank read_3
          ≡ done (eio, blank, read_3, record sample_disk { started = 0 + 11 }))
rwblock_read_retries_example =
    rwblock_read_retries no_space blank read_3 3 (inl (refl, refl)) sample_disk read_3-AtBlock refl

wblock_lost_example :
    (sample_disk.status 0 ≡ lhd_ok
      → (d : Disk) × (sfs_wblock sample_fs blank 3 ≡ done (0, record sample_fs { device = d }))
        × ((a : ℕ) → a < 512 → d.sector 3 a ≡ 0)
        × ((c : ℕ) → c ≢ 3 → d.sector c ≡ sample_disk.sector c))
    × (sample_disk.status 0 ≡ lhd_media
        → (d : Disk) × (sfs_wblock sample_fs blank 3 ≡ done (0, record sample_fs { device = d }))
          × (d.sector ≡ sample_disk.sector))
wblock_lost_example = wblock_lost sample_fs blank 3 (omega arith) (omega arith)

bmap_allocates_example : Maps sample_fs sample_vnode 20 (sfs_bmap sample_fs sample_vnode 20 true)
bmap_allocates_example = bmap_allocates sample_fs sample_vnode sample-IsFile 20 (omega arith)

-- Six hundred bytes from offset 500 of the file.
abbrev letters : ℕ → ℕ
letters a = a % 26 + 97

abbrev write_some : Uio
write_some = mk_kuio 1000 600 500 uio_write

abbrev read_some : Uio
read_some = mk_kuio 5000 600 500 uio_read

write_some-Ready : Ready no_space write_some 600
write_some-Ready = record {
  reach = inl (refl, refl);
  fits = omega arith;
  left = omega arith;
  low = omega arith;
}

read_some-Ready : Ready no_space read_some 600
read_some-Ready = record {
  reach = inl (refl, refl);
  fits = omega arith;
  left = omega arith;
  low = omega arith;
}

sample_size : sfi_size sample_vnode.sv_i ≡ 512
unfolding word
sample_size = refl

sfs_write-Written_example :
    Written sample_fs sample_vnode letters write_some 600
      (sfs_write no_space sample_fs sample_vnode letters write_some)
sfs_write-Written_example =
    sfs_write-Written no_space sample_fs sample_vnode sample-IsFile letters write_some
      write_some-Ready (omega arith) refl (omega arith)

sfs_read-Reads_example :
    (sfi_size sample_vnode.sv_i ≤ 500
      → sfs_read no_space sample_fs sample_vnode blank read_some
        ≡ done (0, sample_fs, sample_vnode, blank, read_some))
    × (500 < sfi_size sample_vnode.sv_i
        → Reads sample_fs sample_vnode blank read_some
            (before_end sample_vnode read_some)
            (sfs_read no_space sample_fs sample_vnode blank read_some))
sfs_read-Reads_example =
    sfs_read-Reads no_space sample_fs sample_vnode blank sample-IsFile read_some read_some-Ready
      (omega arith) refl (omega (arith, sample_size))

read-write_example :
    ((s2 : SfsFs) × (sv2 : SfsVnode) × (write_then_read no_space sample_fs sample_vnode letters
          write_some blank read_some
        ≡ done (0, s2, sv2, blit blank 5000 letters 1000 600, advance read_some 600)))
    ⊎ ((s2 : SfsFs) × (sv2 : SfsVnode) × (u2 : Uio) × (write_then_read no_space sample_fs
            sample_vnode letters write_some blank read_some
          ≡ done (enospc, s2, sv2, letters, u2)))
read-write_example =
    read-write no_space sample_fs sample_vnode sample-IsFile (omega (arith, sample_size)) letters
      write_some write_some-Ready (omega arith) refl (omega arith) blank read_some read_some-Ready
      refl refl refl

sfs_truncate-Truncated_example :
    (s' : SfsFs) × (sv' : SfsVnode) × (sfs_truncate sample_fs sample_vnode 0 ≡ done (0, s', sv'))
    × Truncated sample_fs sample_vnode 0 s' sv'
sfs_truncate-Truncated_example =
    sfs_truncate-Truncated sample_fs sample_vnode sample-IsFile 0 (omega arith)
