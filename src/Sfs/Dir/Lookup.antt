-- ===== src/Sfs/Dir/Lookup.antt =====
-- `sfs_dir_findname` on a disk that works.
use cs350_os.Base.Errno.{enoent}
use mathlib.Core.Path.{fun_ext, subst}
use cs350_os.Base.{
  ℕ, ◌<◌, ◌+◌, ◌≡◌, suc, ◌*◌, done, ◌≤◌, if◌then◌else◌, ◌⊎◌, arith, ◌∙◌, zero, refl, false, ◌%◌,
  none, ap, ◌==◌, true, ◌/◌,
}
use cs350_os.Sfs.{SfsFs, SfsVnode, sfi_size, sfi_type}
use cs350_os.Sfs.Map.Slots.{IsFile, file_byte}
use cs350_os.Sfs.Map.Look.{Read}
use cs350_os.Sfs.FileIo.Reads.{Read-file_byte, Read-trans}
use cs350_os.Sfs.Dir.{look_at, Found, find_names, sfs_dir_findname, sfs_dir_nentries, sfs_readdir}
use cs350_os.Sfs.Dir.Entry.{look_at-Finds}
use cs350_os.Sfs.Dir.Search.{
  Search, Once, SameText, step, readdir_lem, with_entry, same_text_trans, entry_SameText,
  kept-Names, entry-Holds,
}

-- What the search leaves: what it has found of entries 0 to `e`, the directory as it was, and the memory but for the
-- entry.
pub record Searched (s : SfsFs) (sv : SfsVnode) (m : ℕ → ℕ) (sd name e : ℕ) (f : Found) (s' : SfsFs)
    (m' : ℕ → ℕ) : Type 0 where
  pub search : Search (file_byte s sv) m name e f
  pub read : Read s sv s'
  pub text : SameText sd m m'

-- A directory of `n` entries, in a file whose bytes are bytes; a name that stands in one entry only, in memory
-- apart from the entry.
pub record Searchable (s : SfsFs) (sv : SfsVnode) (m : ℕ → ℕ) (sd name n : ℕ) : Type 0 where
  pub file : IsFile s sv
  pub size : sfi_size sv.sv_i ≡ n * 64
  pub small : n * 64 ≤ 143 * 512
  pub bytes : (x : ℕ) → m x < 256
  pub dir_bytes : (x : ℕ) → file_byte s sv x < 256
  pub clear : (name + 60 ≤ sd) ⊎ (sd + 64 ≤ name)
  pub once : Once (file_byte s sv) m name n

abbrev nothing_yet : Found
nothing_yet = record { found = false; ino = 0; slot = 0; emptyslot = none }

module _ (s0 : SfsFs) (sv : SfsVnode) (m0 : ℕ → ℕ) (sd name n : ℕ)
    (d : Searchable s0 sv m0 sd name n) where
  -- One round.
  round :
      (i : ℕ) (f : Found) (s : SfsFs) (m : ℕ → ℕ)
      → i < n
      → Searched s0 sv m0 sd name i f s m
      → (f' : Found) × (s' : SfsFs) × (m' : ℕ → ℕ) × ((k : ℕ)
          → find_names (suc k) i f s sv m sd name ≡ find_names k (i + 1) f' s' sv m' sd name)
        × Searched s0 sv m0 sd name (i + 1) f' s' m'
  unfolding find_names
  round i f s m h so_far =
      let same_dir : file_byte s sv ≡ file_byte s0 sv =
        fun_ext (λ p. Read-file_byte s0 sv s so_far.read p) in
      let (s', ran, read) = readdir_lem s sv so_far.read.0 n d.size d.small m sd i h in
      let dir = file_byte s0 sv in
      let m1 = with_entry m sd dir i in
      let ran' : sfs_readdir s sv m sd i ≡ done (0, s', sv, m1) =
        ran ∙ ap (λ g. done (0, s', sv, with_entry m sd g i)) same_dir in
      let text =
        same_text_trans sd m0 m m1 so_far.text
          (entry_SameText m dir sd i so_far.text.bytes d.dir_bytes) in
      let names = kept-Names dir m0 m1 sd name d.clear text.outside in
      let finds = look_at-Finds dir m1 sd name i (entry-Holds m dir sd i) text.bytes d.clear f in
      let (f', m2, looked, search', text') =
        step dir m0 m1 sd name i n h d.once f so_far.search text.bytes (λ j. (names j).1)
          (λ j. (names j).0) (look_at f m1 sd name i) finds in
      (
        f',
        s',
        m2,
        λ k. rw (ran', looked) refl,
        record {
          search = search';
          read = Read-trans s0 sv s s' so_far.read read;
          text = same_text_trans sd m0 m1 m2 text text';
        },
      )

  rounds :
      (k i : ℕ) (f : Found) (s : SfsFs) (m : ℕ → ℕ)
      → i + k ≡ n
      → Searched s0 sv m0 sd name i f s m
      → (f' : Found) × (s' : SfsFs) × (m' : ℕ → ℕ) × (find_names k i f s sv m sd name
          ≡ done ((if f'.found then 0 else enoent), f', s', sv, m'))
        × Searched s0 sv m0 sd name n f' s' m'
  unfolding find_names
  rounds zero i f s m e so_far = (
    f,
    s,
    m,
    refl,
    subst (λ (x : ℕ). Searched s0 sv m0 sd name x f s m) (let q : i ≡ n = omega (arith, e) in q)
        so_far,
  )
  rounds (suc k) i f s m e so_far =
      let (f1, s1, m1, first, next) = round i f s m (omega (arith, e)) so_far in
      let (f', s', m', ran, all) = rounds k (i + 1) f1 s1 m1 (omega (arith, e)) next in
      (f', s', m', first k ∙ ran, all)

  at_first : Searched s0 sv m0 sd name 0 nothing_yet s0 m0
  at_first = record {
    search = record {
      hit = λ e. absurd cc;
      miss = λ e j h. absurd (omega (arith, h));
      free = λ e here. absurd cc;
      full = λ e j h. absurd (omega (arith, h));
    };
    read = (d.file, refl, refl, refl);
    text = record { outside = λ x h. refl; bytes = d.bytes };
  }

  -- Let a directory of some entries lie in a file whose blocks are in use and all different, within what an inode can
  -- map, on a disk that works; let a name stand in at most one of its entries, and in memory apart from the
  -- entry that is read. `sfs_dir_findname` then returns, and no assertion of it fails. It returns 0 if an
  -- entry in use has the name, with the slot and the inode number of that entry, and ENOENT if none has.
  -- The empty slot that it finds holds no inode; if it finds none, every entry is in use. It changes neither the
  -- blocks of the disk nor the freemap, and in memory only the entry.
  pub findname-Searched :
      sfi_type sv.sv_i ≡ 2
      → (f : Found) × (s' : SfsFs) × (m' : ℕ → ℕ) × (sfs_dir_findname s0 sv m0 sd name
          ≡ done ((if f.found then 0 else enoent), f, s', sv, m'))
        × Searched s0 sv m0 sd name n f s' m'
  unfolding sfs_dir_findname sfs_dir_nentries
  findname-Searched type =
      let (f', s', m', ran, all) = rounds n 0 nothing_yet s0 m0 (omega arith) at_first in
      let whole : (n * 64 % 64 == 0) ≡ true = ground arith in
      let entries : n * 64 / 64 ≡ n = omega arith in
      (f', s', m', rw (type, d.size, whole, entries) ran, all)
