-- ===== src/Sfs/Truncate/Lost.antt =====
-- The loss of several blocks of a file at once.
use cs350_os.Sfs.{SfsFs, SfsVnode, sp_nblocks, word}
use cs350_os.Base.{
  ℕ, Bool, ◌<◌, Bool-cases, ◌≡◌, ◌≢◌, inl, if◌then◌else◌, false, ◌∙◌, inr, true, sym, ap, refl,
}
use cs350_os.Sfs.Space.{IsFs}
use cs350_os.Bitmap.Bits.{bit}
use cs350_os.Sfs.Map.Slots.{IsFile, slot}
use cs350_os.Sfs.Truncate.Shrink.{Shrinks}

-- The slots that `gone` tells have been emptied, and their blocks marked free.
pub record Lost (gone : ℕ → Bool) (s : SfsFs) (sv : SfsVnode) (s' : SfsFs) (sv' : SfsVnode)
    : Type 0 where
  pub slots : (j : ℕ) → j < 144 → slot s' sv' j ≡ (if gone j then 0 else slot s sv j)
  pub freed :
      (j : ℕ) → j < 144 → gone j ≡ true → slot s sv j ≢ 0 → bit s'.freemap.v (slot s sv j) ≡ false
  pub others :
      (c : ℕ)
      → bit s.freemap.v c ≡ true
      → ((j : ℕ) → j < 144 → gone j ≡ true → slot s sv j ≢ 0 → slot s sv j ≢ c)
      → bit s'.freemap.v c ≡ true
  pub unused : (c : ℕ) → bit s.freemap.v c ≡ false → bit s'.freemap.v c ≡ false
  pub frame : (c : ℕ) → c ≢ slot s sv 143 → s'.device.sector c ≡ s.device.sector c
  pub same_super : s'.super ≡ s.super
  pub IsFs' : IsFs s'

module _ {gone : ℕ → Bool} {s : SfsFs} {sv : SfsVnode} {s' : SfsFs} {sv' : SfsVnode}
    (file : IsFile s sv) (d : Lost gone s sv s' sv') where
  -- A slot that is not empty is not gone.
  left : (j : ℕ) → j < 144 → slot s' sv' j ≢ 0 → (gone j ≡ false) × (slot s' sv' j ≡ slot s sv j)
  left j h nz = elim (Bool-cases (gone j)) [
    | inl e ↦ absurd (nz (d.slots j h ∙ rw e refl))
    | inr e ↦ (e, d.slots j h ∙ rw e refl)
  ]

  left_used :
      (j : ℕ)
      → j < 144
      → slot s' sv' j ≢ 0
      → (slot s' sv' j < sp_nblocks s') × (bit s'.freemap.v (slot s' sv' j) ≡ true)
  left_used j h nz =
      let (stays, same) = left j h nz in
      let old : slot s sv j ≢ 0 = λ z. nz (same ∙ z) in
      let (inside, used) = file.used j h old in
      let blocks : sp_nblocks s' ≡ sp_nblocks s = ap (λ x. word x 1) d.same_super in
      rw same (
        rw blocks inside,
        d.others (slot s sv j) used
            (λ i hi g nzi. file.distinct i j hi h (λ e. absurd (let x = ap gone e in cc)) nzi),
      )

  left_distinct :
      (i j : ℕ) → i < 144 → j < 144 → i ≢ j → slot s' sv' i ≢ 0 → slot s' sv' i ≢ slot s' sv' j
  left_distinct i j hi hj ne nz e =
      let (stays, same) = left i hi nz in
      let (stays', same') = left j hj (λ z. nz (e ∙ z)) in
      file.distinct i j hi hj ne (λ z. nz (same ∙ z)) (sym same ∙ (e ∙ same'))

  pub Lost-Shrinks : Shrinks s sv s' sv'
  Lost-Shrinks = record {
    IsFile' = record { fs = d.IsFs'; used = left_used; distinct = left_distinct };
    sub = λ j h. elim (Bool-cases (gone j)) [
      | inl e ↦ inr (d.slots j h ∙ rw e refl)
      | inr e ↦ inl (d.slots j h ∙ rw e refl)
    ];
    freed = λ j h nz z. elim (Bool-cases (gone j)) [
      | inl e ↦ d.freed j h e nz
      | inr e ↦ absurd (nz (sym (d.slots j h ∙ rw e refl) ∙ z))
    ];
    others = λ c used other. d.others c used (λ j h g nz. other j h nz);
    unused = d.unused;
    frame = d.frame;
    same_super = d.same_super;
  }
