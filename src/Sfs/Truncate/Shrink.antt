-- ===== src/Sfs/Truncate/Shrink.antt =====
-- How a file loses blocks.
use cs350_os.Sfs.Space.{IsFs}
use cs350_os.Sfs.Words.{half-set_word}
use mathlib.Core.Path.{subst}
use native.Mathlib.Decide.{ℕ_discrete}
use cs350_os.Bitmap.Bits.{bit}
use cs350_os.Sfs.Map.Slots.{IsFile, slot}
use cs350_os.Base.{
  ℕ, ◌<◌, ◌≡◌, ◌≢◌, ◌⊎◌, inl, inr, true, false, ◌&&◌, not, arith, ◌==◌, if◌then◌else◌, refl, ◌∙◌,
  sym, eq→==, ne→==, ap,
}
use cs350_os.Sfs.{word, SfsFs, SfsVnode, sp_nblocks, half, set_word}

-- What truncation leaves alone in a vnode.
pub record Rest (sv sv' : SfsVnode) : Type 0 where
  pub type : half sv'.sv_i 2 ≡ half sv.sv_i 2
  pub links : half sv'.sv_i 3 ≡ half sv.sv_i 3
  pub ino : sv'.sv_ino ≡ sv.sv_ino
  pub refs : sv'.vn_refcount ≡ sv.vn_refcount
  pub opens : sv'.vn_opencount ≡ sv.vn_opencount

pub Rest-refl : {sv : SfsVnode} → Rest sv sv
Rest-refl = record { type = refl; links = refl; ino = refl; refs = refl; opens = refl }

-- A word other than the type and the link count is set.
pub Rest-word :
    {sv sv' : SfsVnode}
    → Rest sv sv'
    → (k v : ℕ) → k ≢ 1
    → Rest sv (record sv' { sv_i = set_word sv'.sv_i k v; sv_dirty = true })
Rest-word {sv} {sv'} r k v ne = record {
  type = half-set_word sv'.sv_i k v 2 (λ e. ne (sym e)) ∙ r.type;
  links = half-set_word sv'.sv_i k v 3 (λ e. ne (sym e)) ∙ r.links;
  ino = r.ino;
  refs = r.refs;
  opens = r.opens;
}

pub Rest-trans : {a b c : SfsVnode} → Rest a b → Rest b c → Rest a c
Rest-trans p q = record {
  type = q.type ∙ p.type;
  links = q.links ∙ p.links;
  ino = q.ino ∙ p.ino;
  refs = q.refs ∙ p.refs;
  opens = q.opens ∙ p.opens;
}

-- Each slot is as before, or empty and its block marked free; no other mark has changed, nor any block
-- but the indirect block.
pub record Shrinks (s : SfsFs) (sv : SfsVnode) (s' : SfsFs) (sv' : SfsVnode) : Type 0 where
  pub IsFile' : IsFile s' sv'
  pub sub : (j : ℕ) → j < 144 → (slot s' sv' j ≡ slot s sv j) ⊎ (slot s' sv' j ≡ 0)
  pub freed :
      (j : ℕ)
      → j < 144
      → slot s sv j ≢ 0
      → slot s' sv' j ≡ 0
      → bit s'.freemap.v (slot s sv j) ≡ false
  pub others :
      (c : ℕ)
      → bit s.freemap.v c ≡ true
      → ((j : ℕ) → j < 144 → slot s sv j ≢ 0 → slot s sv j ≢ c)
      → bit s'.freemap.v c ≡ true
  pub unused : (c : ℕ) → bit s.freemap.v c ≡ false → bit s'.freemap.v c ≡ false
  pub frame : (c : ℕ) → c ≢ slot s sv 143 → s'.device.sector c ≡ s.device.sector c
  pub same_super : s'.super ≡ s.super

pub Shrinks-refl : {s : SfsFs} {sv : SfsVnode} → IsFile s sv → Shrinks s sv s sv
Shrinks-refl file = record {
  IsFile' = file;
  sub = λ j h. inl refl;
  freed = λ j h nz z. absurd (nz z);
  others = λ c used other. used;
  unused = λ c free. free;
  frame = λ c ne. refl;
  same_super = refl;
}

module _ {s : SfsFs} {sv : SfsVnode} {s1 : SfsFs} {sv1 : SfsVnode} {s2 : SfsFs} {sv2 : SfsVnode}
    (p : Shrinks s sv s1 sv1) (q : Shrinks s1 sv1 s2 sv2) where
  trans_sub : (j : ℕ) → j < 144 → (slot s2 sv2 j ≡ slot s sv j) ⊎ (slot s2 sv2 j ≡ 0)
  trans_sub j h = elim (q.sub j h) [
    | inr z ↦ inr z
    | inl e ↦ elim (p.sub j h) [ inl f ↦ inl (e ∙ f) | inr z ↦ inr (e ∙ z) ]
  ]

  trans_freed :
      (j : ℕ)
      → j < 144
      → slot s sv j ≢ 0
      → slot s2 sv2 j ≡ 0
      → bit s2.freemap.v (slot s sv j) ≡ false
  trans_freed j h nz z = elim (p.sub j h) [
    | inl e ↦ subst (λ (c : ℕ). bit s2.freemap.v c ≡ false) e (q.freed j h (λ y. nz (sym e ∙ y)) z)
    | inr e ↦ q.unused (slot s sv j) (p.freed j h nz e)
  ]

  still_other :
      (c : ℕ)
      → ((j : ℕ) → j < 144 → slot s sv j ≢ 0 → slot s sv j ≢ c)
      → (j : ℕ) → j < 144
      → slot s1 sv1 j ≢ 0
      → slot s1 sv1 j ≢ c
  still_other c other j h nz e = elim (p.sub j h) [
    | inl f ↦ other j h (λ z. nz (f ∙ z)) (sym f ∙ e)
    | inr z ↦ nz z
  ]

  -- The blocks that a first loss kept may be lost by a second; the indirect block is the same in both, or
  -- lost by the first.
  pub Shrinks-trans : (slot s1 sv1 143 ≡ slot s sv 143) → Shrinks s sv s2 sv2
  Shrinks-trans same = record {
    IsFile' = q.IsFile';
    sub = trans_sub;
    freed = trans_freed;
    others = λ c used other. q.others c (p.others c used other) (still_other c other);
    unused = λ c free. q.unused c (p.unused c free);
    frame = λ c ne. q.frame c (λ e. ne (e ∙ same)) ∙ p.frame c ne;
    same_super = q.same_super ∙ p.same_super;
  }

-- Slot `k` has been emptied, and its block marked free.
pub record Dropped (s : SfsFs) (sv : SfsVnode) (k : ℕ) (s' : SfsFs) (sv' : SfsVnode) : Type 0 where
  pub valid : k < 144
  pub filled : slot s sv k ≢ 0
  pub slots : (j : ℕ) → j < 144 → slot s' sv' j ≡ (if j == k then 0 else slot s sv j)
  pub bits : (c : ℕ) → bit s'.freemap.v c ≡ (not (c == slot s sv k) && bit s.freemap.v c)
  pub same_device : s'.device ≡ s.device
  pub same_super : s'.super ≡ s.super
  pub IsFs' : IsFs s'

module _ {s : SfsFs} {sv : SfsVnode} {k : ℕ} {s' : SfsFs} {sv' : SfsVnode} (file : IsFile s sv)
    (d : Dropped s sv k s' sv') where
  dropped_here : slot s' sv' k ≡ 0
  dropped_here = d.slots k d.valid ∙ rw (eq→== k k refl) refl

  pub dropped_other : (j : ℕ) → j < 144 → j ≢ k → slot s' sv' j ≡ slot s sv j
  dropped_other j h ne = d.slots j h ∙ rw (ne→== j k ne) refl

  stays_used : (c : ℕ) → c ≢ slot s sv k → bit s.freemap.v c ≡ true → bit s'.freemap.v c ≡ true
  stays_used c ne used = d.bits c ∙ rw (ne→== c (slot s sv k) ne, used) refl

  Dropped-IsFile : IsFile s' sv'
  Dropped-IsFile = record {
    fs = d.IsFs';
    used = λ i h nz. elim (ℕ_discrete i k) [
      | yes e ↦ absurd (nz (ap (slot s' sv') e ∙ dropped_here))
      | no ne ↦
          let same = dropped_other i h ne in
          let (inside, used) = file.used i h (λ z. nz (same ∙ z)) in
          let blocks : sp_nblocks s' ≡ sp_nblocks s = ap (λ x. word x 1) d.same_super in
          rw same (
            rw blocks inside,
            stays_used (slot s sv i) (file.distinct i k h d.valid ne (λ z. nz (same ∙ z))) used,
          )
    ];
    distinct = λ i j hi hj ne nz e. elim (ℕ_discrete i k) [
      | yes ik ↦ nz (ap (slot s' sv') ik ∙ dropped_here)
      | no ik ↦ elim (ℕ_discrete j k) [
        | yes jk ↦ nz (e ∙ (ap (slot s' sv') jk ∙ dropped_here))
        | no jk ↦
            let same = dropped_other i hi ik in
            file.distinct i j hi hj ne (λ z. nz (same ∙ z)) (sym same ∙ (e ∙ dropped_other j hj jk))
      ]
    ];
  }

  pub Dropped-Shrinks : Shrinks s sv s' sv'
  Dropped-Shrinks = record {
    IsFile' = Dropped-IsFile;
    sub = λ j h. elim (ℕ_discrete j k) [
      | yes e ↦ inr (ap (slot s' sv') e ∙ dropped_here)
      | no ne ↦ inl (dropped_other j h ne)
    ];
    freed = λ j h nz z. elim (ℕ_discrete j k) [
      | yes e ↦
          d.bits (slot s sv j) ∙ rw (eq→== (slot s sv j) (slot s sv k) (ap (slot s sv) e)) refl
      | no ne ↦ absurd (nz (sym (dropped_other j h ne) ∙ z))
    ];
    others = λ c used other. stays_used c (λ e. other k d.valid d.filled (sym e)) used;
    unused = λ c free. d.bits c ∙ ground (arith, free);
    frame = λ c ne. ap (λ x. x.sector c) d.same_device;
    same_super = d.same_super;
  }
