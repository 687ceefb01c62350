-- ===== src/Sfs/FileIo/Edit.antt =====
-- How a file changes when bytes are written to it.
use native.Mathlib.Decide.{ℕ_discrete}
use cs350_os.Base.{
  ℕ, ◌*◌, ◌/◌, ◌%◌, ◌<◌, ◌≡◌, ◌≢◌, true, false, arith, ◌==◌, if◌then◌else◌, refl, update, sym, ◌∙◌,
  Bool-cases, inl, inr, ap, eq→==, ne→==,
}
use cs350_os.Bitmap.Bits.{bit}
use cs350_os.Sfs.{SfsFs, SfsVnode, sfi_indirect}
use cs350_os.Sfs.Map.Slots.{slot, IsFile, Keeps, file_byte, slot_same, slot_indirect}
use cs350_os.Sfs.Map.Extend.{Extends, Keeps-trans, Keeps-refl}

-- The bytes of the file are `f`; blocks that were mapped still are, others may have been added that were
-- free; no other block in use has changed.
pub record Edits (s : SfsFs) (sv : SfsVnode) (f : ℕ → ℕ) (s' : SfsFs) (sv' : SfsVnode)
    : Type 0 where
  pub IsFile' : IsFile s' sv'
  pub bytes : (p : ℕ) → p < 143 * 512 → file_byte s' sv' p ≡ f p
  pub old : (j : ℕ) → j < 144 → slot s sv j ≢ 0 → slot s' sv' j ≡ slot s sv j
  pub new :
      (j : ℕ)
      → j < 144
      → slot s sv j ≡ 0
      → slot s' sv' j ≢ 0
      → bit s.freemap.v (slot s' sv' j) ≡ false
  pub frame :
      (c : ℕ)
      → bit s.freemap.v c ≡ true
      → ((j : ℕ) → j < 144 → slot s sv j ≢ c)
      → s'.device.sector c ≡ s.device.sector c
  pub still : (c : ℕ) → bit s.freemap.v c ≡ true → bit s'.freemap.v c ≡ true
  pub same_super : s'.super ≡ s.super
  pub kept : Keeps sv sv'

pub Extends-Edits :
    {s : SfsFs} {sv : SfsVnode} {s' : SfsFs} {sv' : SfsVnode}
    → Extends s sv s' sv'
    → Edits s sv (file_byte s sv) s' sv'
Extends-Edits p = record {
  IsFile' = p.IsFile';
  bytes = p.bytes;
  old = p.old;
  new = p.new;
  frame = λ c used other. p.frame c used (λ e. other 143 (omega arith) (sym e));
  still = p.still;
  same_super = p.same_super;
  kept = p.kept;
}

-- The same bytes by another description.
pub Edits-same :
    {s : SfsFs} {sv : SfsVnode} {f : ℕ → ℕ} {s' : SfsFs} {sv' : SfsVnode} (g : ℕ → ℕ)
    → ((p : ℕ) → p < 143 * 512 → f p ≡ g p)
    → Edits s sv f s' sv'
    → Edits s sv g s' sv'
Edits-same g same e = record {
  IsFile' = e.IsFile';
  bytes = λ p h. e.bytes p h ∙ same p h;
  old = e.old;
  new = e.new;
  frame = e.frame;
  still = e.still;
  same_super = e.same_super;
  kept = e.kept;
}

pub Edits-trans :
    {s : SfsFs} {sv : SfsVnode} {f : ℕ → ℕ} {s1 : SfsFs} {sv1 : SfsVnode} {g : ℕ → ℕ} {s2 : SfsFs}
    {sv2 : SfsVnode}
    → Edits s sv f s1 sv1
    → Edits s1 sv1 g s2 sv2
    → Edits s sv g s2 sv2
Edits-trans {s} {sv} {f} {s1} {sv1} {g} {s2} {sv2} p q = record {
  IsFile' = q.IsFile';
  bytes = q.bytes;
  old = λ j h nz. q.old j h (λ z. nz (sym (p.old j h nz) ∙ z)) ∙ p.old j h nz;
  new = λ j h z nz. elim (ℕ_discrete (slot s1 sv1 j) 0) [
    | yes e ↦ not_used (slot s2 sv2 j) (q.new j h e nz)
    | no ne ↦ ap (bit s.freemap.v) (q.old j h ne) ∙ p.new j h z ne
  ];
  frame = λ c used other.
      q.frame c (p.still c used) (λ j h. elsewhere c used other j h) ∙ p.frame c used other;
  still = λ c used. q.still c (p.still c used);
  same_super = q.same_super ∙ p.same_super;
  kept = Keeps-trans sv sv1 sv2 p.kept q.kept;
}
  where
    not_used : (c : ℕ) → bit s1.freemap.v c ≡ false → bit s.freemap.v c ≡ false
    not_used c free = elim (Bool-cases (bit s.freemap.v c)) [
      | inl used ↦ absurd (cc (p.still c used, free))
      | inr e ↦ e
    ]

    elsewhere :
        (c : ℕ)
        → bit s.freemap.v c ≡ true
        → ((j : ℕ) → j < 144 → slot s sv j ≢ c)
        → (j : ℕ) → j < 144
        → slot s1 sv1 j ≢ c
    elsewhere c used other j h e = elim (ℕ_discrete (slot s sv j) 0) [
      | no nz ↦ other j h (sym (p.old j h nz) ∙ e)
      | yes z ↦ elim (ℕ_discrete (slot s1 sv1 j) 0) [
        | yes z1 ↦ other j h (z ∙ (sym z1 ∙ e))
        | no nz ↦ absurd (cc (p.new j h z nz, ap (bit s.freemap.v) e, used))
      ]
    ]

-- The file system with `contents` in block `k` of the file.
abbrev pub stored : SfsFs → SfsVnode → ℕ → (ℕ → ℕ) → (ℕ → ℕ) → ℕ → SfsFs
stored s sv k contents buf n = record s {
  device = record s.device {
    sector = update s.device.sector (slot s sv k) contents;
    lh_buf = buf;
    started = n;
  };
}

module _ (s : SfsFs) (sv : SfsVnode) (k : ℕ) (contents buf : ℕ → ℕ) (n : ℕ) (file : IsFile s sv)
    (in_file : k < 143) (mapped : slot s sv k ≢ 0) where
  stored_slot : (j : ℕ) → j < 144 → slot (stored s sv k contents buf n) sv j ≡ slot s sv j
  stored_slot j h = slot_same s (stored s sv k contents buf n) sv j (
      rw
        (ne→== (sfi_indirect sv.sv_i) (slot s sv k) (λ e.
          file.distinct k 143 (omega arith) (omega arith) (omega arith) mapped
            (sym e ∙ sym (slot_indirect s sv))))
        refl)

  stored-IsFile : IsFile (stored s sv k contents buf n) sv
  stored-IsFile = record {
    fs = record {
      map = file.fs.map;
      covers = file.fs.covers;
      beyond = file.fs.beyond;
      super_used = file.fs.super_used;
      on_disk = file.fs.on_disk;
      small = file.fs.small;
      works = file.fs.works;
    };
    used = λ j h nz. rw (stored_slot j h) (file.used j h (λ z. nz (stored_slot j h ∙ z)));
    distinct = λ i j hi hj ne nz.
        rw (stored_slot i hi, stored_slot j hj)
          (file.distinct i j hi hj ne (λ z. nz (stored_slot i hi ∙ z)));
  }

  stored_byte :
      (p : ℕ)
      → p < 143 * 512
      → file_byte (stored s sv k contents buf n) sv p
        ≡ (if p / 512 == k then contents (p % 512) else file_byte s sv p)
  stored_byte p h = rw (stored_slot (p / 512) (omega arith)) (elim (ℕ_discrete (p / 512) k) [
    | yes e ↦
        rw
          (
            eq→== (p / 512) k e,
            ap (slot s sv) e,
            ne→== (slot s sv k) 0 mapped,
            eq→== (slot s sv k) (slot s sv k) refl,
          )
          refl
    | no ne ↦ rw (ne→== (p / 512) k ne) (elim (ℕ_discrete (slot s sv (p / 512)) 0) [
      | yes z ↦ rw z refl
      | no nz ↦
          rw
            (ne→== (slot s sv (p / 512)) (slot s sv k)
              (file.distinct (p / 512) k (omega arith) (omega arith) ne nz))
            refl
    ])
  ])

  pub stored-Edits :
      Edits s sv
        (λ p. if p / 512 == k then contents (p % 512) else file_byte s sv p)
        (stored s sv k contents buf n)
        sv
  stored-Edits = record {
    IsFile' = stored-IsFile;
    bytes = stored_byte;
    old = λ j h nz. stored_slot j h;
    new = λ j h z nz. absurd (nz (stored_slot j h ∙ z));
    frame = λ c used other. rw (ne→== c (slot s sv k) (λ e. other k (omega arith) (sym e))) refl;
    still = λ c used. used;
    same_super = refl;
    kept = Keeps-refl sv;
  }
