-- ===== src/Sfs/Sample.antt =====
-- A file system of eight blocks with one file of one block, on a disk that works.
use native.Mathlib.Decide.{ℕ_discrete}
use cs350_os.Sfs.Space.{IsFs}
use cs350_os.Sfs.{SfsFs, SfsVnode, word, sp_nblocks}
use cs350_os.Bitmap.{Bitmap}
use cs350_os.Disk.{Disk, lhd_ok}
use cs350_os.Base.{
  ℕ, ◌<◌, ◌≡◌, ◌≢◌, true, false, arith, ◌==◌, if◌then◌else◌, refl, [], ◌∷◌, ◌∙◌, eq→==, ne→==,
}
use cs350_os.Bitmap.Bits.{IsValid, bit}
use cs350_os.Sfs.Map.Slots.{slot, IsFile}

abbrev pub sample_disk : Disk
sample_disk = record {
  d_blocks = 8;
  sector = λ c a. if c == 3 then 65 else 0;
  lh_buf = λ a. 0;
  status = λ k. lhd_ok;
  started = 0;
}

abbrev pub sample_map : Bitmap
sample_map = record { nbits = 8; v = 15 ∷ [] }

abbrev pub sample_fs : SfsFs
sample_fs = record {
  super = λ a. if a == 7 then 8 else 0;
  superdirty = false;
  device = sample_disk;
  freemap = sample_map;
  freemapdirty = false;
}

-- Inode 1: a file of 512 bytes with one link, in block 3.
abbrev pub sample_vnode : SfsVnode
sample_vnode = record {
  sv_i = λ a.
      if a == 2 then 2 else if a == 5 then 1 else if a == 7 then 1 else if a == 11 then 3 else 0;
  sv_ino = 1;
  sv_dirty = false;
  vn_refcount = 1;
  vn_opencount = 0;
}

sample_map-IsValid : IsValid sample_map
sample_map-IsValid = record {
  small = omega arith;
  sized = refl;
  bytes = λ ix. ground arith;
  over = λ i h k. absurd (omega arith);
}

sample-IsFs : IsFs sample_fs
unfolding word
sample-IsFs = record {
  map = sample_map-IsValid;
  covers = omega arith;
  beyond = λ j h k. absurd (omega arith);
  super_used = refl;
  on_disk = omega arith;
  small = omega arith;
  works = λ j. refl;
}

pub sample_slot : (i : ℕ) → i < 144 → slot sample_fs sample_vnode i ≡ (if i == 0 then 3 else 0)
unfolding slot word
sample_slot i h = ground arith

sample_used :
    (i : ℕ)
    → i < 144
    → slot sample_fs sample_vnode i ≢ 0
    → (slot sample_fs sample_vnode i < sp_nblocks sample_fs)
      × (bit sample_map.v (slot sample_fs sample_vnode i) ≡ true)
unfolding word
sample_used i h nz = elim (ℕ_discrete i 0) [
  | yes e ↦
      let here : slot sample_fs sample_vnode i ≡ 3 = sample_slot i h ∙ rw (eq→== i 0 e) refl in
      rw here (omega arith, refl)
  | no ne ↦ absurd (nz (sample_slot i h ∙ rw (ne→== i 0 ne) refl))
]

sample_distinct :
    (i j : ℕ)
    → i < 144
    → j < 144
    → i ≢ j
    → slot sample_fs sample_vnode i ≢ 0
    → slot sample_fs sample_vnode i ≢ slot sample_fs sample_vnode j
sample_distinct i j hi hj ne nz e = ground (arith, sample_slot i hi, sample_slot j hj)

pub sample-IsFile : IsFile sample_fs sample_vnode
sample-IsFile = record { fs = sample-IsFs; used = sample_used; distinct = sample_distinct }
