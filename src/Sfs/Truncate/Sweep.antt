-- ===== src/Sfs/Truncate/Sweep.antt =====
-- What the part of `sfs_truncate` about the indirect block leaves of a file.
use mathlib.Core.Path.{subst}
use cs350_os.Sfs.Space.{IsFs}
use cs350_os.Sfs.Words.{word-blit}
use cs350_os.Disk.Sector.{after_read}
use cs350_os.Uio.{blit}
use cs350_os.Base.{
  ℕ, Bool, if◌then◌else◌, false, ◌==◌, ◌≢◌, leb, ◌<◌, ◌+◌, ◌&&◌, arith, ◌≡◌, ltb, ◌∙◌, not, sym,
  ◌-◌, true, ap, refl, eq→==, Bool-cases, inr, inl, ne→==,
}
use cs350_os.Sfs.{SfsFs, SfsVnode, sfi_indirect, word}
use native.Mathlib.Decide.{ℕ_discrete, dec_lt}
use cs350_os.Bitmap.Bits.{bit}
use cs350_os.Sfs.Map.Slots.{IsFile, slot, slot_entry, slot_indirect}
use cs350_os.Sfs.Truncate.{IdBuf}
use cs350_os.Sfs.Truncate.Entries.{Swept, Live}
use cs350_os.Sfs.Truncate.Lost.{Lost}

-- The buffer with the indirect block, before the loop.
abbrev pub read_buf : SfsFs → SfsVnode → IdBuf
read_buf s sv = record {
  idbuf = blit (λ a. 0) 0 (s.device.sector (sfi_indirect sv.sv_i)) 0 512;
  hasnonzero = false;
  iddirty = false;
}

abbrev pub after_rblock : SfsFs → SfsVnode → SfsFs
after_rblock s sv = record s { device = after_read s.device (sfi_indirect sv.sv_i) }

-- The slots that are emptied: those of the indirect block past `blocklen`, and if `drop` that block itself.
abbrev pub swept : ℕ → Bool → ℕ → Bool
swept blocklen drop j = if j == 143 then drop else leb 15 j && ltb blocklen j

module _ (s : SfsFs) (sv : SfsVnode) (file : IsFile s sv) (nz : sfi_indirect sv.sv_i ≢ 0) where
  pub read_word : (k : ℕ) → k < 128 → word (read_buf s sv).idbuf k ≡ slot s sv (15 + k)
  read_word k h =
      word-blit (λ a. 0) (s.device.sector (sfi_indirect sv.sv_i)) k h ∙ sym (slot_entry s sv k h nz)

  pub read-Live : Live (after_rblock s sv) (read_buf s sv) 0 128
  read-Live = record {
    used = λ k lo hi nz'.
        rw (read_word k hi) (file.used (15 + k) (omega arith) (λ z. nz' (read_word k hi ∙ z)));
    distinct = λ k l klo khi llo lhi ne nz' e.
        file.distinct (15 + k) (15 + l) (omega arith) (omega arith) (λ z. ne (omega arith))
          (λ z. nz' (read_word k khi ∙ z)) (sym (read_word k khi) ∙ (e ∙ read_word l lhi));
  }

  module _ {blocklen : ℕ} {s2 : SfsFs} {b : IdBuf}
      (p : Swept blocklen 0 128 (after_rblock s sv) (read_buf s sv) s2 b) (drop : Bool) (s' : SfsFs)
      (sv' : SfsVnode) (direct : (j : ℕ) → j < 15 → slot s' sv' j ≡ slot s sv j)
      (entries : (k : ℕ) → k < 128 → slot s' sv' (15 + k) ≡ word b.idbuf k)
      (indirect : slot s' sv' 143 ≡ (if drop then 0 else slot s sv 143))
      (bits : (c : ℕ)
        → bit s'.freemap.v c ≡ (not (drop && (c == slot s sv 143)) && bit s2.freemap.v c)) where
    swept_slots :
        (j : ℕ) → j < 144 → slot s' sv' j ≡ (if swept blocklen drop j then 0 else slot s sv j)
    swept_slots j h = elim (dec_lt j 15) [
      | yes lt ↦ direct j lt ∙ ground arith
      | no ge ↦ elim (ℕ_discrete j 143) [
        | yes e ↦ rw e (indirect ∙ refl)
        | no ne ↦
            let (k, e) : (k : ℕ) × (j ≡ 15 + k) = (j - 15, omega arith) in
            let lt : k < 128 = omega arith in
            rw e (entries k lt ∙ (p.words k ∙ (rw (read_word k lt) (ground (arith, lt)))))
      ]
    ]

    swept_freed :
        (j : ℕ)
        → j < 144
        → swept blocklen drop j ≡ true
        → slot s sv j ≢ 0
        → bit s'.freemap.v (slot s sv j) ≡ false
    swept_freed j h g full = bits (slot s sv j) ∙ (elim (ℕ_discrete j 143) [
      | yes e ↦
          let on : drop ≡ true = ground (arith, g, e) in
          rw (on, eq→== (slot s sv j) (slot s sv 143) (ap (slot s sv) e)) refl
      | no ne ↦
          let (k, e) : (k : ℕ) × (j ≡ 15 + k) = (j - 15, ground (arith, g, ne)) in
          let lt : k < 128 = omega arith in
          let at : word (read_buf s sv).idbuf k ≡ slot s sv j =
            read_word k lt ∙ ap (slot s sv) (sym e) in
          let free : bit s2.freemap.v (slot s sv j) ≡ false =
            subst (λ (c : ℕ). bit s2.freemap.v c ≡ false) at
              (p.freed k (ground (arith, g, e, lt)) (λ z. full (sym at ∙ z))) in
          rw free (ground arith)
    ])

    swept_others :
        (c : ℕ)
        → bit s.freemap.v c ≡ true
        → ((j : ℕ) → j < 144 → swept blocklen drop j ≡ true → slot s sv j ≢ 0 → slot s sv j ≢ c)
        → bit s'.freemap.v c ≡ true
    swept_others c used other =
        let left : bit s2.freemap.v c ≡ true = p.others c used (λ k g full e.
          let lt : k < 128 = ground (arith, g) in
          other (15 + k) (omega arith) (ground (arith, g)) (λ z. full (read_word k lt ∙ z))
            (sym (read_word k lt) ∙ e)) in
        bits c
        ∙ rw left (elim (Bool-cases drop) [
          | inr off ↦ rw off refl
          | inl on ↦
              let ne : c ≢ slot s sv 143 = λ e.
                other 143 (omega arith) (ground (arith, on))
                  (λ z. nz (sym (slot_indirect s sv) ∙ z)) (sym e) in
              rw (on, ne→== c (slot s sv 143) ne) refl
        ])

    pub swept-Lost :
        ((c : ℕ) → c ≢ slot s sv 143 → s'.device.sector c ≡ s.device.sector c)
        → s'.super ≡ s.super
        → IsFs s'
        → Lost (swept blocklen drop) s sv s' sv'
    swept-Lost frame same fs = record {
      slots = swept_slots;
      freed = swept_freed;
      others = swept_others;
      unused = λ c free. bits c ∙ ground (arith, p.unused c free);
      frame = frame;
      same_super = same;
      IsFs' = fs;
    }
