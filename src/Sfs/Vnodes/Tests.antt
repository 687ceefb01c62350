-- ===== src/Sfs/Vnodes/Tests.antt =====
-- The theorems on vnodes, at the file system of Sfs/Sample.
use cs350_os.Sfs.Words.{word-set_half}
use cs350_os.Sfs.Space.{IsFs-device}
use cs350_os.Disk.{Disk}
use cs350_os.Sfs.Map.Slots.{slot, IsFile}
use cs350_os.Base.{
  ◌∷◌, ◌≡◌, [], some, ℕ, if◌then◌else◌, arith, done, none, true, ◌<◌, ◌==◌, inl, ◌⊎◌, refl, ◌+◌,
  ◌&&◌,
}
use cs350_os.Sfs.{SfsVnode, half, word, set_half, sp_nblocks}
use cs350_os.Sfs.Sample.{sample_fs, sample_disk, sample_vnode, sample-IsFile, sample_slot}
use cs350_os.Sfs.Vnodes.{Pool, Supply, sfs_reclaim, sfs_loadvnode, in_table}
use cs350_os.Sfs.Vnodes.Reclaim.{Unnamed, Reclaimed, reclaim-Reclaimed}
use cs350_os.Sfs.Vnodes.Load.{IsPool, Hands, Again, Anew, loadvnode-Hands, IsInode}

-- The file of Sample without a name, at address 40.
abbrev unnamed : SfsVnode
unnamed = record sample_vnode { sv_i = set_half sample_vnode.sv_i 3 0 }

abbrev last_use : Pool
last_use = record {
  fs = sample_fs;
  vnodes = 40 ∷ [];
  heap = λ a. if a == 40 then some unnamed else none;
}

unnamed_slot : (j : ℕ) → slot sample_fs unnamed j ≡ slot sample_fs sample_vnode j
unfolding slot
unnamed_slot j = ground (
  arith,
  word-set_half sample_vnode.sv_i 3 0 (2 + j) (λ e. omega (arith, e)),
  word-set_half sample_vnode.sv_i 3 0 17 (λ e. omega (arith, e)),
)

unnamed-IsFile : IsFile sample_fs unnamed
unnamed-IsFile = record {
  fs = sample-IsFile.fs;
  used = λ i h. rw (unnamed_slot i) (sample-IsFile.used i h);
  distinct = λ i j h k. rw (unnamed_slot i, unnamed_slot j) (sample-IsFile.distinct i j h k);
}

last_use-Unnamed : Unnamed last_use 40 unnamed
unfolding half word set_half in_table
last_use-Unnamed = record {
  here = refl;
  pooled = refl;
  file = unnamed-IsFile;
  regular = refl;
  unlinked = refl;
  one_ref = refl;
  not_open = refl;
  inside = omega arith;
  nonzero = λ e. omega (arith, e);
  used = refl;
  apart = λ j h. rw (unnamed_slot j, sample_slot j h) (ground arith);
}

reclaim-Reclaimed_example :
    (p' : Pool) × (sfs_reclaim last_use 40 ≡ done (0, p')) × Reclaimed last_use 40 unnamed p'
reclaim-Reclaimed_example = reclaim-Reclaimed last_use 40 unnamed last_use-Unnamed

-- Block 2 holds the inode of an empty file.
abbrev inode_disk : Disk
inode_disk = record sample_disk { sector = λ c a. if c == 2 && a == 5 then 1 else 0 }

abbrev no_vnodes : Pool
no_vnodes = record { fs = record sample_fs { device = inode_disk }; vnodes = []; heap = λ a. none }

no_vnodes-IsPool : IsPool no_vnodes
unfolding in_table
no_vnodes-IsPool = record {
  fs = IsFs-device sample-IsFile.fs inode_disk refl refl;
  loaded = λ v e. absurd cc;
  unique = λ v w e. absurd cc;
}

abbrev enough : Supply
enough = record { new_vnode = some 80; new_lock = true; new_slot = true }

inside_2 : 2 < sp_nblocks no_vnodes.fs
unfolding word
inside_2 = omega arith

second-IsInode : IsInode (no_vnodes.fs.device.sector 2)
unfolding half
second-IsInode = inl refl

loadvnode-Hands_example :
    (w : ℕ) × (sv' : SfsVnode) × (p' : Pool) × (sfs_loadvnode enough no_vnodes 2 0
      ≡ done (0, some w, p'))
    × Hands no_vnodes 2 w sv' p'
    × (Again no_vnodes w sv' p' ⊎ Anew no_vnodes 2 w sv' p')
loadvnode-Hands_example =
    loadvnode-Hands no_vnodes no_vnodes-IsPool 2 inside_2 refl second-IsInode enough 80 refl refl
      refl refl
