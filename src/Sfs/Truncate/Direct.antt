-- ===== src/Sfs/Truncate/Direct.antt =====
-- The loop of `sfs_truncate` over the direct blocks.
use native.Mathlib.Decide.{ℕ_discrete}
use cs350_os.Sfs.Space.{bfree_lem}
use cs350_os.Sfs.Words.{word-set_word}
use cs350_os.Sfs.Map.Grow.{with_block}
use cs350_os.Sfs.Truncate.Shrink.{
  Shrinks, Shrinks-refl, Dropped, Dropped-Shrinks, Shrinks-trans, dropped_other, Rest, Rest-refl,
  Rest-trans, Rest-word,
}
use cs350_os.Sfs.Map.Slots.{slot, IsFile, slot_same, slot_direct}
use cs350_os.Base.{
  ℕ, zero, suc, ◌+◌, ◌<◌, ◌≤◌, ◌≡◌, ◌≢◌, false, ◌&&◌, not, done, arith, ltb, leb, ◌==◌,
  if◌then◌else◌, refl, Bool, Bool-cases, inr, ◌∙◌, ap, inl, sym,
}
use cs350_os.Sfs.{word, SfsFs, SfsVnode, set_word, sfs_bfree, sfi_indirect}
use cs350_os.Sfs.Truncate.{trunc_direct}

-- A block number taken out of the inode.
empty_slots :
    (s : SfsFs) (sv : SfsVnode) (i j : ℕ)
    → i < 15
    → j < 144
    → slot s (with_block sv (2 + i) 0) j ≡ (if j == i then 0 else slot s sv j)
unfolding slot
empty_slots s sv i j h k = ground (
  arith,
  word-set_word sv.sv_i (2 + i) 0 (2 + j) (omega arith),
  word-set_word sv.sv_i (2 + i) 0 17 (omega arith),
)

drop_direct :
    (s : SfsFs) (sv : SfsVnode)
    → IsFile s sv
    → (i : ℕ) → i < 15
    → slot s sv i ≢ 0
    → (s' : SfsFs) × (sfs_bfree s (slot s sv i) ≡ done s')
      × Dropped s sv i s' (with_block sv (2 + i) 0)
drop_direct s sv file i h nz =
    let (inside, used) = file.used i (omega arith) nz in
    let (s', e, valid, bits, device, super) = bfree_lem s file.fs (slot s sv i) inside nz used in
    (
      s',
      e,
      record {
        valid = omega arith;
        filled = nz;
        slots = λ j k.
            slot_same s s' (with_block sv (2 + i) 0) j
              (ap (λ d. d.sector (sfi_indirect (set_word sv.sv_i (2 + i) 0))) device)
            ∙ empty_slots s sv i j h k;
        bits = bits;
        same_device = device;
        same_super = super;
        IsFs' = valid;
      },
    )

-- The slots from `i` up to `e` that lie past the new end.
abbrev pub cut : ℕ → ℕ → ℕ → ℕ → Bool
cut blocklen i e j = leb i j && (ltb j e && leb blocklen j)

-- One slot later.
cut_skip :
    (f : ℕ → ℕ) (blocklen i n j : ℕ)
    → (leb blocklen i && not (f i == 0)) ≡ false
    → (if cut blocklen (i + 1) (i + 1 + n) j then 0 else f j)
      ≡ (if cut blocklen i (i + suc n) j then 0 else f j)
cut_skip f blocklen i n j e = elim (ℕ_discrete j i) [
  | yes here ↦ rw here (ground (arith, e))
  | no ne ↦ ground (arith, ne)
]

cut_drop :
    (f : ℕ → ℕ) (blocklen i n j : ℕ)
    → blocklen ≤ i
    → (if cut blocklen (i + 1) (i + 1 + n) j then 0 else (if j == i then 0 else f j))
      ≡ (if cut blocklen i (i + suc n) j then 0 else f j)
cut_drop f blocklen i n j e = ground (arith, e)

-- What the loop leaves.
pub record Direct (s : SfsFs) (sv : SfsVnode) (blocklen i e : ℕ) (s' : SfsFs) (sv' : SfsVnode)
    : Type 0 where
  pub shrinks : Shrinks s sv s' sv'
  pub slots : (j : ℕ) → j < 144 → slot s' sv' j ≡ (if cut blocklen i e j then 0 else slot s sv j)
  pub same_device : s'.device ≡ s.device
  pub rest : Rest sv sv'

pub trunc_direct-Direct :
    (n i blocklen : ℕ) (s : SfsFs) (sv : SfsVnode)
    → IsFile s sv
    → i + n ≤ 15
    → (s' : SfsFs) × (sv' : SfsVnode) × (trunc_direct n i blocklen s sv ≡ done (s', sv'))
      × Direct s sv blocklen i (i + n) s' sv'
unfolding trunc_direct
trunc_direct-Direct zero i blocklen s sv file h = (
  s,
  sv,
  refl,
  record {
    shrinks = Shrinks-refl file;
    slots = λ j k. ground arith;
    same_device = refl;
    rest = Rest-refl;
  },
)
trunc_direct-Direct (suc n) i blocklen s sv file h =
    let here : word sv.sv_i (2 + i) ≡ slot s sv i = sym (slot_direct s sv i (omega arith)) in
    let end : i + 1 + n ≡ i + suc n = omega arith in
    elim (Bool-cases (leb blocklen i && not (slot s sv i == 0))) [
      | inr e ↦
          let (s', sv', ran, d) = trunc_direct-Direct n (i + 1) blocklen s sv file (omega arith) in
          (
            s',
            sv',
            rw (here, e) ran,
            record {
              shrinks = d.shrinks;
              slots = λ j k. d.slots j k ∙ cut_skip (slot s sv) blocklen i n j e;
              same_device = d.same_device;
              rest = d.rest;
            },
          )
      | inl e ↦
          let past : (blocklen ≤ i) × (slot s sv i ≢ 0) = ground (arith, e) in
          let (s1, freed, dropped) = drop_direct s sv file i (omega arith) past.1 in
          let shrinks = Dropped-Shrinks file dropped in
          let (s', sv', ran, d) =
            trunc_direct-Direct n (i + 1) blocklen s1 (with_block sv (2 + i) 0) shrinks.IsFile'
              (omega arith) in
          (
            s',
            sv',
            rw (here, e, freed) ran,
            record {
              shrinks =
                  Shrinks-trans shrinks d.shrinks
                    (dropped_other file dropped 143 (omega arith) (omega arith));
              slots = λ j k.
                  d.slots j k
                  ∙ (ap (λ x. if cut blocklen (i + 1) (i + 1 + n) j then 0 else x)
                        (dropped.slots j k)
                      ∙ cut_drop (slot s sv) blocklen i n j past.0);
              same_device = d.same_device ∙ dropped.same_device;
              rest = Rest-trans (Rest-word Rest-refl (2 + i) 0 (λ e. omega (arith, e))) d.rest;
            },
          )
    ]
