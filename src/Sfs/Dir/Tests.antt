-- ===== src/Sfs/Dir/Tests.antt =====
-- The search of a directory of one entry, in block 3 of the disk of Sfs/Sample.
use cs350_os.Base.Errno.{enoent}
use cs350_os.Base.{ℕ, if◌then◌else◌, ◌<◌, arith, ◌≡◌, refl, ◌==◌, inr, done, ◌∙◌, sym}
use cs350_os.Sfs.Space.{IsFs-device}
use cs350_os.Sfs.{SfsFs, SfsVnode, word, half, sfi_type}
use cs350_os.Disk.{Disk}
use cs350_os.Sfs.Sample.{sample_fs, sample_disk, sample_vnode, sample-IsFile, sample_slot}
use cs350_os.Sfs.Map.Slots.{IsFile, slot}
use cs350_os.Sfs.Dir.{sfs_dir_findname, Found}
use cs350_os.Sfs.Dir.Lookup.{Searchable, Searched, findname-Searched}

-- The entry has inode 2 and the name "a".
abbrev entry_disk : Disk
entry_disk = record sample_disk {
  sector = λ c a. if c == 3 then (if a == 3 then 2 else if a == 4 then 97 else 0) else 0;
}

abbrev entry_fs : SfsFs
entry_fs = record sample_fs { device = entry_disk }

abbrev folder : SfsVnode
folder = record sample_vnode {
  sv_i = λ a.
      if a == 3 then 64 else if a == 5 then 2 else if a == 7 then 1 else if a == 11 then 3 else 0;
}

folder_slots : (j : ℕ) → j < 144 → slot entry_fs folder j ≡ (if j == 0 then 3 else 0)
unfolding slot word
folder_slots j h = ground arith

folder_slot : (j : ℕ) → j < 144 → slot entry_fs folder j ≡ slot sample_fs sample_vnode j
folder_slot j h = folder_slots j h ∙ sym (sample_slot j h)

folder-IsFile : IsFile entry_fs folder
folder-IsFile = record {
  fs = IsFs-device sample-IsFile.fs entry_disk refl refl;
  used = λ i h. rw (folder_slot i h) (sample-IsFile.used i h);
  distinct = λ i j h k. rw (folder_slot i h, folder_slot j k) (sample-IsFile.distinct i j h k);
}

-- The name "a" at address 200.
abbrev asked : ℕ → ℕ
asked x = if x == 200 then 97 else 0

folder-Searchable : Searchable entry_fs folder asked 100 200 1
unfolding word
folder-Searchable = record {
  file = folder-IsFile;
  size = refl;
  small = omega arith;
  bytes = λ x. ground arith;
  dir_bytes = λ x. ground arith;
  clear = inr (omega arith);
  once = λ i j hi hj p q. omega (arith, hi, hj);
}

folder_type : sfi_type folder.sv_i ≡ 2
unfolding half
folder_type = refl

findname-Searched_example :
    (f : Found) × (s' : SfsFs) × (m' : ℕ → ℕ) × (sfs_dir_findname entry_fs folder asked 100 200
      ≡ done ((if f.found then 0 else enoent), f, s', folder, m'))
    × Searched entry_fs folder asked 100 200 1 f s' m'
findname-Searched_example =
    findname-Searched entry_fs folder asked 100 200 1 folder-Searchable folder_type
