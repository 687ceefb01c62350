-- ===== src/Sfs/Map/Slots.antt =====
-- The blocks of a file, as its inode and its indirect block name them.
use native.Mathlib.Decide.{ℕ_discrete}
use cs350_os.Base.{
  ℕ, ◌+◌, ◌-◌, ◌*◌, ◌/◌, ◌%◌, ◌<◌, ◌≡◌, ◌≢◌, true, false, ◌||◌, arith, ltb, ◌==◌, if◌then◌else◌,
  refl, ap, sym, ◌∙◌, eq→==, ne→==, Bool-cases, inl, inr,
}
use cs350_os.Bitmap.Bits.{bit}
use cs350_os.Sfs.{SfsFs, SfsVnode, sp_nblocks, word, half, sfi_indirect}
use cs350_os.Sfs.Space.{IsFs}

-- The disk block of block `i` of a file, for `i` below 143, and the indirect block for 143; 0 is none.
unfoldable pub slot : SfsFs → SfsVnode → ℕ → ℕ
slot s sv i =
    if ltb i 15
    then word sv.sv_i (2 + i)
    else if i == 143
    then sfi_indirect sv.sv_i
    else if sfi_indirect sv.sv_i == 0
    then 0
    else word (s.device.sector (sfi_indirect sv.sv_i)) (i - 15)

pub slot_direct : (s : SfsFs) (sv : SfsVnode) (i : ℕ) → i < 15 → slot s sv i ≡ word sv.sv_i (2 + i)
unfolding slot
slot_direct s sv i h = ground arith

pub slot_indirect : (s : SfsFs) (sv : SfsVnode) → slot s sv 143 ≡ sfi_indirect sv.sv_i
unfolding slot
slot_indirect s sv = refl

pub slot_entry :
    (s : SfsFs) (sv : SfsVnode) (o : ℕ)
    → o < 128
    → sfi_indirect sv.sv_i ≢ 0
    → slot s sv (15 + o) ≡ word (s.device.sector (sfi_indirect sv.sv_i)) o
unfolding slot
slot_entry s sv o h nz = let e : 15 + o - 15 ≡ o = omega arith in ground (arith, e)

pub slot_none :
    (s : SfsFs) (sv : SfsVnode) (o : ℕ)
    → o < 128
    → sfi_indirect sv.sv_i ≡ 0
    → slot s sv (15 + o) ≡ 0
unfolding slot
slot_none s sv o h z = ground arith

pub slot_same :
    (s s' : SfsFs) (sv : SfsVnode) (j : ℕ)
    → s'.device.sector (sfi_indirect sv.sv_i) ≡ s.device.sector (sfi_indirect sv.sv_i)
    → slot s' sv j ≡ slot s sv j
unfolding slot
slot_same s s' sv j e = rw e refl

-- The blocks of the file are on the disk, marked as used, and all different.
pub record IsFile (s : SfsFs) (sv : SfsVnode) : Type 0 where
  pub fs : IsFs s
  pub used :
      (i : ℕ)
      → i < 144
      → slot s sv i ≢ 0
      → (slot s sv i < sp_nblocks s) × (bit s.freemap.v (slot s sv i) ≡ true)
  pub distinct : (i j : ℕ) → i < 144 → j < 144 → i ≢ j → slot s sv i ≢ 0 → slot s sv i ≢ slot s sv j

-- What the map of a file's blocks leaves alone in its vnode.
pub record Keeps (sv sv' : SfsVnode) : Type 0 where
  pub size : word sv'.sv_i 0 ≡ word sv.sv_i 0
  pub type : half sv'.sv_i 2 ≡ half sv.sv_i 2
  pub links : half sv'.sv_i 3 ≡ half sv.sv_i 3
  pub ino : sv'.sv_ino ≡ sv.sv_ino
  pub refs : sv'.vn_refcount ≡ sv.vn_refcount
  pub opens : sv'.vn_opencount ≡ sv.vn_opencount

-- Byte `p` of the file, as the disk holds it.
abbrev pub file_byte : SfsFs → SfsVnode → ℕ → ℕ
file_byte s sv p =
    if slot s sv (p / 512) == 0 then 0 else s.device.sector (slot s sv (p / 512)) (p % 512)

-- The empty slot `k` has been given the block `b`, which was free; nothing else of the file has changed, nor
-- any block but `b` and the indirect block.
pub record Grown (s : SfsFs) (sv : SfsVnode) (k b : ℕ) (s' : SfsFs) (sv' : SfsVnode) : Type 0 where
  pub valid : k < 144
  pub empty : slot s sv k ≡ 0
  pub free : bit s.freemap.v b ≡ false
  pub inside : b < sp_nblocks s
  pub nonzero : b ≢ 0
  pub bits : (j : ℕ) → bit s'.freemap.v j ≡ ((j == b) || bit s.freemap.v j)
  pub slots : (j : ℕ) → j < 144 → slot s' sv' j ≡ (if j == k then b else slot s sv j)
  pub zeros : (a : ℕ) → a < 512 → s'.device.sector b a ≡ 0
  pub others : (c : ℕ) → c ≢ b → c ≢ slot s sv 143 → s'.device.sector c ≡ s.device.sector c
  pub same_super : s'.super ≡ s.super
  pub kept : Keeps sv sv'
  pub IsFs' : IsFs s'

module _ {s : SfsFs} {sv : SfsVnode} {k b : ℕ} {s' : SfsFs} {sv' : SfsVnode} (file : IsFile s sv)
    (g : Grown s sv k b s' sv') where
  open g use {valid, empty, free, inside, nonzero, bits, slots, zeros, others, same_super}

  same_blocks : sp_nblocks s' ≡ sp_nblocks s
  same_blocks = ap (λ x. word x 1) same_super

  -- A block of the file was in use before, so it is not the new one.
  pub slot-ne : (j : ℕ) → j < 144 → slot s sv j ≢ b
  slot-ne j h e = absurd (ground (arith, (file.used j h (λ z. nonzero (sym e ∙ z))).1, free, e))

  pub slot_here : slot s' sv' k ≡ b
  slot_here = slots k valid ∙ rw (eq→== k k refl) refl

  pub slot_other : (j : ℕ) → j < 144 → j ≢ k → slot s' sv' j ≡ slot s sv j
  slot_other j h ne = slots j h ∙ rw (ne→== j k ne) refl

  pub still_used : (c : ℕ) → bit s.freemap.v c ≡ true → bit s'.freemap.v c ≡ true
  still_used c h = bits c ∙ (elim (Bool-cases (c == b)) [ inl e ↦ rw e refl | inr e ↦ rw e h ])

  Grown-used :
      (i : ℕ)
      → i < 144
      → slot s' sv' i ≢ 0
      → (slot s' sv' i < sp_nblocks s') × (bit s'.freemap.v (slot s' sv' i) ≡ true)
  Grown-used i h nz = elim (ℕ_discrete i k) [
    | yes e ↦
        let here : slot s' sv' i ≡ b = ap (slot s' sv') e ∙ slot_here in
        rw here (rw same_blocks inside, bits b ∙ rw (eq→== b b refl) refl)
    | no ne ↦
        let same = slot_other i h ne in
        let (lt, used) = file.used i h (λ z. nz (same ∙ z)) in
        rw same (rw same_blocks lt, still_used (slot s sv i) used)
  ]

  Grown-distinct :
      (i j : ℕ) → i < 144 → j < 144 → i ≢ j → slot s' sv' i ≢ 0 → slot s' sv' i ≢ slot s' sv' j
  Grown-distinct i j hi hj ne nz eq = elim (ℕ_discrete i k) [
    | yes e ↦
        let at_i : slot s' sv' i ≡ b = ap (slot s' sv') e ∙ slot_here in
        slot-ne j hj (sym (slot_other j hj (λ z. ne (e ∙ sym z))) ∙ (sym eq ∙ at_i))
    | no ne_i ↦
        let at_i = slot_other i hi ne_i in
        elim (ℕ_discrete j k) [
          | yes e ↦ slot-ne i hi (sym at_i ∙ (eq ∙ (ap (slot s' sv') e ∙ slot_here)))
          | no ne_j ↦
              file.distinct i j hi hj ne (λ z. nz (at_i ∙ z))
                (sym at_i ∙ (eq ∙ slot_other j hj ne_j))
        ]
  ]

  pub Grown-IsFile : IsFile s' sv'
  Grown-IsFile = record { fs = g.IsFs'; used = Grown-used; distinct = Grown-distinct }

  -- The bytes of the file are the same.
  pub Grown-file_byte : (p : ℕ) → p < 143 * 512 → file_byte s' sv' p ≡ file_byte s sv p
  Grown-file_byte p h = elim (ℕ_discrete (p / 512) k) [
    | yes e ↦
        let here : slot s' sv' (p / 512) ≡ b = ap (slot s' sv') e ∙ slot_here in
        let old : slot s sv (p / 512) ≡ 0 = ap (slot s sv) e ∙ empty in
        rw (here, old, ne→== b 0 nonzero) (zeros (p % 512) (omega arith))
    | no ne ↦
        let at : p / 512 < 144 = omega arith in
        rw (slot_other (p / 512) at ne) (elim (ℕ_discrete (slot s sv (p / 512)) 0) [
          | yes z ↦ rw z refl
          | no nz ↦ rw (ne→== (slot s sv (p / 512)) 0 nz) (
              ap (λ c. c (p % 512))
                (others (slot s sv (p / 512)) (slot-ne (p / 512) at)
                  (file.distinct (p / 512) 143 at (omega arith) (omega arith) nz)))
        ])
  ]
