-- ===== src/Sfs/Map/Extend.antt =====
-- How the map of a file may change while its bytes stay the same.
use native.Mathlib.Decide.{ℕ_discrete}
use cs350_os.Base.{
  ℕ, ◌*◌, ◌<◌, ◌≡◌, ◌≢◌, true, false, arith, refl, ◌∙◌, Bool-cases, ap, inl, inr, sym,
}
use cs350_os.Bitmap.Bits.{bit}
use cs350_os.Disk.Sector.{after_read}
use cs350_os.Sfs.{SfsFs, SfsVnode}
use cs350_os.Sfs.Map.Slots.{
  slot, IsFile, Keeps, Grown, file_byte, Grown-IsFile, Grown-file_byte, slot_other, still_used,
  slot_here,
}

-- Slots that were filled are the same, and a slot that has been filled holds a block that was free. The
-- bytes of the file are the same, and so is every block that was in use but the indirect block.
pub record Extends (s : SfsFs) (sv : SfsVnode) (s' : SfsFs) (sv' : SfsVnode) : Type 0 where
  pub IsFile' : IsFile s' sv'
  pub bytes : (p : ℕ) → p < 143 * 512 → file_byte s' sv' p ≡ file_byte s sv p
  pub old : (j : ℕ) → j < 144 → slot s sv j ≢ 0 → slot s' sv' j ≡ slot s sv j
  pub new :
      (j : ℕ)
      → j < 144
      → slot s sv j ≡ 0
      → slot s' sv' j ≢ 0
      → bit s.freemap.v (slot s' sv' j) ≡ false
  pub frame :
      (c : ℕ)
      → bit s.freemap.v c ≡ true
      → c ≢ slot s sv 143
      → s'.device.sector c ≡ s.device.sector c
  pub still : (c : ℕ) → bit s.freemap.v c ≡ true → bit s'.freemap.v c ≡ true
  pub same_super : s'.super ≡ s.super
  pub kept : Keeps sv sv'

pub Keeps-trans : (a b c : SfsVnode) → Keeps a b → Keeps b c → Keeps a c
Keeps-trans a b c p q = record {
  size = q.size ∙ p.size;
  type = q.type ∙ p.type;
  links = q.links ∙ p.links;
  ino = q.ino ∙ p.ino;
  refs = q.refs ∙ p.refs;
  opens = q.opens ∙ p.opens;
}

pub Extends-trans :
    {s : SfsFs} {sv : SfsVnode} {s1 : SfsFs} {sv1 : SfsVnode} {s2 : SfsFs} {sv2 : SfsVnode}
    → Extends s sv s1 sv1
    → Extends s1 sv1 s2 sv2
    → Extends s sv s2 sv2
Extends-trans {s} {sv} {s1} {sv1} {s2} {sv2} p q = record {
  IsFile' = q.IsFile';
  bytes = λ x h. q.bytes x h ∙ p.bytes x h;
  old = λ j h nz. q.old j h (λ z. nz (sym (p.old j h nz) ∙ z)) ∙ p.old j h nz;
  new = λ j h z nz. elim (ℕ_discrete (slot s1 sv1 j) 0) [
    | yes e ↦ not_used (slot s2 sv2 j) (q.new j h e nz)
    | no ne ↦ ap (bit s.freemap.v) (q.old j h ne) ∙ p.new j h z ne
  ];
  frame = λ c used ne. q.frame c (p.still c used) (indirect c used ne) ∙ p.frame c used ne;
  still = λ c used. q.still c (p.still c used);
  same_super = q.same_super ∙ p.same_super;
  kept = Keeps-trans sv sv1 sv2 p.kept q.kept;
}
  where
    not_used : (c : ℕ) → bit s1.freemap.v c ≡ false → bit s.freemap.v c ≡ false
    not_used c free = elim (Bool-cases (bit s.freemap.v c)) [
      | inl used ↦ absurd (cc (p.still c used, free))
      | inr e ↦ e
    ]

    indirect : (c : ℕ) → bit s.freemap.v c ≡ true → c ≢ slot s sv 143 → c ≢ slot s1 sv1 143
    indirect c used ne e = elim (ℕ_discrete (slot s sv 143) 0) [
      | yes z ↦ elim (ℕ_discrete (slot s1 sv1 143) 0) [
        | yes z1 ↦ ne (e ∙ (z1 ∙ sym z))
        | no nz ↦ absurd (cc (p.new 143 (omega arith) z nz, ap (bit s.freemap.v) e, used))
      ]
      | no nz ↦ ne (e ∙ p.old 143 (omega arith) nz)
    ]

pub Grown-Extends :
    {s : SfsFs} {sv : SfsVnode} {k b : ℕ} {s' : SfsFs} {sv' : SfsVnode}
    → IsFile s sv
    → Grown s sv k b s' sv'
    → Extends s sv s' sv'
Grown-Extends {s} {sv} {k} {b} {s'} {sv'} file g = record {
  IsFile' = Grown-IsFile file g;
  bytes = Grown-file_byte file g;
  old = λ j h nz. slot_other file g j h (λ e. nz (ap (slot s sv) e ∙ g.empty));
  new = λ j h z nz. elim (ℕ_discrete j k) [
    | yes e ↦ ap (bit s.freemap.v) (ap (slot s' sv') e ∙ slot_here file g) ∙ g.free
    | no ne ↦ absurd (nz (slot_other file g j h ne ∙ z))
  ];
  frame = λ c used ne. g.others c (λ e. absurd (cc (ap (bit s.freemap.v) e, used, g.free))) ne;
  still = still_used file g;
  same_super = g.same_super;
  kept = g.kept;
}

pub Keeps-refl : (sv : SfsVnode) → Keeps sv sv
Keeps-refl sv = record {
  size = refl;
  type = refl;
  links = refl;
  ino = refl;
  refs = refl;
  opens = refl;
}

pub Extends-refl : {s : SfsFs} {sv : SfsVnode} → IsFile s sv → Extends s sv s sv
Extends-refl {s} {sv} file = record {
  IsFile' = file;
  bytes = λ p h. refl;
  old = λ j h nz. refl;
  new = λ j h z nz. absurd (nz z);
  frame = λ c used ne. refl;
  still = λ c used. used;
  same_super = refl;
  kept = Keeps-refl sv;
}

-- A block has been read.
pub IsFile-read :
    {s : SfsFs} {sv : SfsVnode} (c : ℕ)
    → IsFile s sv
    → IsFile (record s { device = after_read s.device c }) sv
unfolding slot
IsFile-read {s} {sv} c file = record {
  fs = record {
    map = file.fs.map;
    covers = file.fs.covers;
    beyond = file.fs.beyond;
    super_used = file.fs.super_used;
    on_disk = file.fs.on_disk;
    small = file.fs.small;
    works = file.fs.works;
  };
  used = file.used;
  distinct = file.distinct;
}

pub Extends-read :
    {s : SfsFs} {sv : SfsVnode} (c : ℕ)
    → IsFile s sv
    → Extends s sv (record s { device = after_read s.device c }) sv
unfolding slot
Extends-read {s} {sv} c file = record {
  IsFile' = IsFile-read c file;
  bytes = λ p h. refl;
  old = λ j h nz. refl;
  new = λ j h z nz. absurd (nz z);
  frame = λ c used ne. refl;
  still = λ c used. used;
  same_super = refl;
  kept = Keeps-refl sv;
}

pub read_slot :
    (s : SfsFs) (sv : SfsVnode) (c j : ℕ)
    → j < 143
    → slot (record s { device = after_read s.device c }) sv j ≡ slot s sv j
unfolding slot
read_slot s sv c j h = refl
