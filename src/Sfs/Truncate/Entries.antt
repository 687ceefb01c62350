-- ===== src/Sfs/Truncate/Entries.antt =====
-- The loop of `sfs_truncate` over the indirect block.
use mathlib.Core.Path.{subst}
use cs350_os.Sfs.Words.{word-set_word}
use native.Mathlib.Decide.{ℕ_discrete, dec_lt}
use cs350_os.Sfs.Space.{IsFs, bfree_lem}
use cs350_os.Bitmap.Bits.{bit}
use cs350_os.Base.{
  ℕ, zero, suc, ◌+◌, ◌<◌, ◌≤◌, ◌≡◌, ◌≢◌, true, false, ◌&&◌, ◌||◌, not, done, arith, ltb, leb, ◌==◌,
  if◌then◌else◌, refl, Bool, Bool-cases, inr, ap, inl, ◌∙◌, sym, eq→==, ne→==,
}
use cs350_os.Sfs.{word, SfsFs, set_word, sp_nblocks}
use cs350_os.Sfs.Truncate.{trunc_entry, trunc_entries, IdBuf}

-- The numbers from `j` up to `e` that the loop empties.
abbrev pub gone : ℕ → ℕ → ℕ → ℕ → Bool
gone blocklen j e k = leb j k && (ltb k e && ltb blocklen (15 + k))

-- The numbers from `j` up to `e` are of blocks in use, and all different.
pub record Live (s : SfsFs) (b : IdBuf) (j e : ℕ) : Type 0 where
  pub used :
      (k : ℕ)
      → j ≤ k
      → k < e
      → word b.idbuf k ≢ 0
      → (word b.idbuf k < sp_nblocks s) × (bit s.freemap.v (word b.idbuf k) ≡ true)
  pub distinct :
      (k l : ℕ)
      → j ≤ k
      → k < e
      → j ≤ l
      → l < e
      → k ≢ l
      → word b.idbuf k ≢ 0
      → word b.idbuf k ≢ word b.idbuf l

-- What the loop from `j` up to `e` leaves.
pub record Swept (blocklen j e : ℕ) (s : SfsFs) (b : IdBuf) (s' : SfsFs) (b' : IdBuf) : Type 0 where
  pub words : (k : ℕ) → word b'.idbuf k ≡ (if gone blocklen j e k then 0 else word b.idbuf k)
  pub freed :
      (k : ℕ)
      → gone blocklen j e k ≡ true
      → word b.idbuf k ≢ 0
      → bit s'.freemap.v (word b.idbuf k) ≡ false
  pub others :
      (c : ℕ)
      → bit s.freemap.v c ≡ true
      → ((k : ℕ) → gone blocklen j e k ≡ true → word b.idbuf k ≢ 0 → word b.idbuf k ≢ c)
      → bit s'.freemap.v c ≡ true
  pub unused : (c : ℕ) → bit s.freemap.v c ≡ false → bit s'.freemap.v c ≡ false
  pub seen :
      b'.hasnonzero ≡ false
      → (b.hasnonzero ≡ false) × ((k : ℕ) → j ≤ k → k < e → word b'.idbuf k ≡ 0)
  pub dirty :
      b'.iddirty ≡ false → (b.iddirty ≡ false) × ((k : ℕ) → word b'.idbuf k ≡ word b.idbuf k)
  pub same_device : s'.device ≡ s.device
  pub same_super : s'.super ≡ s.super
  pub IsFs' : IsFs s'

-- One number.
entry-Swept :
    (j blocklen : ℕ) (s : SfsFs) (b : IdBuf)
    → IsFs s
    → (word b.idbuf j ≢ 0
        → (word b.idbuf j < sp_nblocks s) × (bit s.freemap.v (word b.idbuf j) ≡ true))
    → (s' : SfsFs) × (b' : IdBuf) × (trunc_entry j blocklen s b ≡ done (s', b'))
      × Swept blocklen j (j + 1) s b s' b'
unfolding trunc_entry
entry-Swept j blocklen s b fs used =
    elim (Bool-cases (ltb blocklen (15 + j) && not (word b.idbuf j == 0))) [
      | inr e ↦ (
        s,
        record b { hasnonzero = b.hasnonzero || not (word b.idbuf j == 0) },
        rw e refl,
        record {
          words = λ k. elim (ℕ_discrete k j) [
            | yes here ↦ rw here (ground (arith, e))
            | no ne ↦ ground (arith, ne)
          ];
          freed = λ k g nz. elim (ℕ_discrete k j) [
            | yes here ↦ absurd (ground (arith, e, g, ap (word b.idbuf) here, nz))
            | no ne ↦ absurd (ground (arith, g, ne))
          ];
          others = λ c u other. u;
          unused = λ c f. f;
          seen = λ h. (
            ground (arith, h),
            λ k lo hi. ground (arith, h, ap (word b.idbuf) (let x : k ≡ j = omega arith in x)),
          );
          dirty = λ h. (h, λ k. refl);
          same_device = refl;
          same_super = refl;
          IsFs' = fs;
        },
      )
      | inl e ↦
          let past : (blocklen < 15 + j) × (word b.idbuf j ≢ 0) = ground (arith, e) in
          let (inside, marked) = used past.1 in
          let (s', freed, valid, bits, device, super) =
            bfree_lem s fs (word b.idbuf j) inside past.1 marked in
          let after = λ (k : ℕ). word-set_word b.idbuf j 0 k (omega arith) in
          let zeroed : word (set_word b.idbuf j 0) j ≡ 0 = after j ∙ rw (eq→== j j refl) refl in
          (
            s',
            record {
              idbuf = set_word b.idbuf j 0;
              hasnonzero = b.hasnonzero || not (word (set_word b.idbuf j 0) j == 0);
              iddirty = true;
            },
            rw (e, freed) refl,
            record {
              words = λ k. after k ∙ ground (arith, past);
              freed = λ k g nz. elim (ℕ_discrete k j) [
                | yes here ↦
                    bits (word b.idbuf k)
                    ∙ rw (eq→== (word b.idbuf k) (word b.idbuf j) (ap (word b.idbuf) here)) refl
                | no ne ↦ absurd (ground (arith, g, ne))
              ];
              others = λ c u other.
                  bits c
                  ∙ rw
                      (
                        ne→== c (word b.idbuf j)
                            (λ z. other j (ground (arith, past)) past.1 (sym z)),
                        u,
                      )
                      refl;
              unused = λ c f. bits c ∙ ground (arith, f);
              seen = λ h. (
                ground (arith, h),
                λ k lo hi.
                    ap (word (set_word b.idbuf j 0)) (let x : k ≡ j = omega arith in x) ∙ zeroed,
              );
              dirty = λ h. absurd cc;
              same_device = device;
              same_super = super;
              IsFs' = valid;
            },
          )
    ]

-- One number, and those after it.
module _ {blocklen j m e : ℕ} (lo : j ≤ m) (hi : m ≤ e) {s : SfsFs} {b : IdBuf} {s1 : SfsFs}
    {b1 : IdBuf} {s2 : SfsFs} {b2 : IdBuf} (p : Swept blocklen j m s b s1 b1)
    (q : Swept blocklen m e s1 b1 s2 b2) where
  same_after : (k : ℕ) → m ≤ k → word b1.idbuf k ≡ word b.idbuf k
  same_after k h = p.words k ∙ ground (arith, h)

  both_freed :
      (k : ℕ)
      → gone blocklen j e k ≡ true
      → word b.idbuf k ≢ 0
      → bit s2.freemap.v (word b.idbuf k) ≡ false
  both_freed k g nz = elim (dec_lt k m) [
    | yes h ↦ q.unused (word b.idbuf k) (p.freed k (ground (arith, g, h)) nz)
    | no h ↦
        let same = same_after k (omega arith) in
        subst (λ (c : ℕ). bit s2.freemap.v c ≡ false) same
          (q.freed k (ground (arith, g, h)) (λ z. nz (sym same ∙ z)))
  ]

  both_others :
      (c : ℕ)
      → bit s.freemap.v c ≡ true
      → ((k : ℕ) → gone blocklen j e k ≡ true → word b.idbuf k ≢ 0 → word b.idbuf k ≢ c)
      → bit s2.freemap.v c ≡ true
  both_others c used other =
      q.others c (p.others c used (λ k g. other k (ground (arith, g, hi)))) (λ k g nz z.
        let same = same_after k (ground (arith, g)) in
        other k (ground (arith, g, lo)) (λ y. nz (same ∙ y)) (sym same ∙ z))

  Swept-trans : Swept blocklen j e s b s2 b2
  Swept-trans = record {
    words = λ k. q.words k ∙ ground (arith, p.words k, lo, hi);
    freed = both_freed;
    others = both_others;
    unused = λ c f. q.unused c (p.unused c f);
    seen = λ h.
        let (h1, zeros2) = q.seen h in
        let (h0, zeros1) = p.seen h1 in
        (
          h0,
          λ k from to. elim (dec_lt k m) [
            | yes below ↦ q.words k ∙ ground (arith, zeros1 k, below)
            | no above ↦ zeros2 k (omega arith) to
          ],
        );
    dirty = λ h.
        let (h1, same2) = q.dirty h in let (h0, same1) = p.dirty h1 in (h0, λ k. same2 k ∙ same1 k);
    same_device = q.same_device ∙ p.same_device;
    same_super = q.same_super ∙ p.same_super;
    IsFs' = q.IsFs';
  }

-- The numbers that are left are still of blocks in use.
Live-next :
    {blocklen j e : ℕ} {s : SfsFs} {b : IdBuf} {s1 : SfsFs} {b1 : IdBuf}
    → j < e
    → Live s b j e
    → Swept blocklen j (j + 1) s b s1 b1
    → Live s1 b1 (j + 1) e
Live-next {blocklen} {j} {e} {s} {b} {s1} {b1} h live p = record {
  used = λ k lo hi nz.
      let same = same_at k lo in
      let (inside, marked) = live.used k (omega arith) hi (λ z. nz (same ∙ z)) in
      let blocks : sp_nblocks s1 ≡ sp_nblocks s = ap (λ x. word x 1) p.same_super in
      rw same (
        rw blocks inside,
        p.others (word b.idbuf k) marked (λ l g nz' z.
            let at : l ≡ j = ground (arith, g) in
            live.distinct k j (omega arith) hi (omega arith) h (omega arith) (λ y. nz (same ∙ y))
              (sym z ∙ ap (word b.idbuf) at)),
      );
  distinct = λ k l klo khi llo lhi ne nz z.
      live.distinct k l (omega arith) khi (omega arith) lhi ne (λ y. nz (same_at k klo ∙ y))
        (sym (same_at k klo) ∙ (z ∙ same_at l llo));
}
  where
    same_at : (k : ℕ) → j + 1 ≤ k → word b1.idbuf k ≡ word b.idbuf k
    same_at k lo = p.words k ∙ ground (arith, lo)

none-Swept : (j blocklen : ℕ) (s : SfsFs) (b : IdBuf) → IsFs s → Swept blocklen j (j + 0) s b s b
none-Swept j blocklen s b fs = record {
  words = λ k. ground arith;
  freed = λ k g nz. absurd (ground (arith, g));
  others = λ c u other. u;
  unused = λ c f. f;
  seen = λ h. (h, λ k lo hi. absurd (omega arith));
  dirty = λ h. (h, λ k. refl);
  same_device = refl;
  same_super = refl;
  IsFs' = fs;
}

pub trunc_entries-Swept :
    (n j blocklen : ℕ) (s : SfsFs) (b : IdBuf)
    → IsFs s
    → Live s b j (j + n)
    → (s' : SfsFs) × (b' : IdBuf) × (trunc_entries n j blocklen s b ≡ done (s', b'))
      × Swept blocklen j (j + n) s b s' b'
unfolding trunc_entries
trunc_entries-Swept zero j blocklen s b fs live = (s, b, refl, none-Swept j blocklen s b fs)
trunc_entries-Swept (suc n) j blocklen s b fs live =
    let (s1, b1, e1, first) =
      entry-Swept j blocklen s b fs (live.used j (omega arith) (omega arith)) in
    let end : j + 1 + n ≡ j + suc n = omega arith in
    let live' : Live s1 b1 (j + 1) (j + 1 + n) = rw end (Live-next (omega arith) live first) in
    let (s2, b2, e2, rest) = trunc_entries-Swept n (j + 1) blocklen s1 b1 first.IsFs' live' in
    (
      s2,
      b2,
      rw e1 e2,
      subst (λ (x : ℕ). Swept blocklen j x s b s2 b2) end
          (Swept-trans (omega arith) (omega arith) first rest),
    )
