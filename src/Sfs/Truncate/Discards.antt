-- ===== src/Sfs/Truncate/Discards.antt =====
-- `sfs_truncate` on a file, on a disk that works.
use cs350_os.Sfs.Truncate.Shrink.{Rest, Rest-word, Rest-refl}
use cs350_os.Uio.{blit}
use cs350_os.Disk.Sector.{after_write}
use cs350_os.Sfs.Space.{wblock_ok, bfree_lem, IsFs-device, rblock_ok, IsFs}
use cs350_os.Base.{
  ◌≢◌, ℕ, ◌≡◌, done, arith, sym, ◌∙◌, ◌<◌, false, true, ◌+◌, ap, refl, update, eq→==, ne→==, Bool,
  Bool-cases, inr, inl,
}
use cs350_os.Sfs.{SfsFs, SfsVnode, sfi_indirect, sp_nblocks, sfs_wblock, sfs_bfree, word, set_word}
use cs350_os.Bitmap.Bits.{bit}
use cs350_os.Sfs.Map.Slots.{
  IsFile, slot, slot_indirect, slot_same, slot_direct, slot_entry, slot_none,
}
use cs350_os.Sfs.Truncate.{IdBuf, trunc_indirect}
use cs350_os.Sfs.Truncate.Entries.{Swept, trunc_entries-Swept}
use cs350_os.Sfs.Map.Grow.{with_block}
use cs350_os.Sfs.Words.{word-set_word, word-blit}
use cs350_os.Sfs.Truncate.Lost.{Lost}
use cs350_os.Sfs.Truncate.Sweep.{read_word, swept, swept-Lost, read_buf, after_rblock, read-Live}

module _ (s : SfsFs) (sv : SfsVnode) (file : IsFile s sv) (nz : sfi_indirect sv.sv_i ≢ 0) where
  used : (slot s sv 143 < sp_nblocks s) × (bit s.freemap.v (slot s sv 143) ≡ true)
  used = file.used 143 (omega arith) (λ z. nz (sym (slot_indirect s sv) ∙ z))

  -- The indirect block is none of the blocks it names.
  other :
      (k : ℕ)
      → k < 128
      → word (read_buf s sv).idbuf k ≢ 0
      → word (read_buf s sv).idbuf k ≢ sfi_indirect sv.sv_i
  other k h full e =
      let at = read_word s sv file nz k h in
      file.distinct (15 + k) 143 (omega arith) (omega arith) (λ z. absurd (omega (arith, h, z)))
        (λ z. full (at ∙ z)) (sym at ∙ (e ∙ sym (slot_indirect s sv)))

-- The three ends of the part about the indirect block.
module _ (s : SfsFs) (sv : SfsVnode) (file : IsFile s sv) (nz : sfi_indirect sv.sv_i ≢ 0)
    {blocklen : ℕ} {s2 : SfsFs} {b : IdBuf}
    (p : Swept blocklen 0 128 (after_rblock s sv) (read_buf s sv) s2 b) where
  entry_left : (k : ℕ) → k < 128 → b.iddirty ≡ false → slot s sv (15 + k) ≡ word b.idbuf k
  entry_left k h clean = sym ((p.dirty clean).1 k ∙ read_word s sv file nz k h)

  -- Nothing has been emptied.
  pub kept-Lost : b.iddirty ≡ false → Lost (swept blocklen false) s sv s2 sv
  kept-Lost clean =
      let here : s2.device.sector (sfi_indirect sv.sv_i) ≡ s.device.sector (sfi_indirect sv.sv_i) =
        ap (λ d. d.sector (sfi_indirect sv.sv_i)) p.same_device in
      swept-Lost s sv file nz p false s2 sv (λ j h. slot_same s s2 sv j here)
        (λ k h. slot_same s s2 sv (15 + k) here ∙ entry_left k h clean) (slot_same s s2 sv 143 here)
        (λ c. refl) (λ c h. ap (λ d. d.sector c) p.same_device) p.same_super p.IsFs'

  -- The indirect block is written back.
  pub written-Lost :
      (s3 : SfsFs) × (sfs_wblock s2 b.idbuf (sfi_indirect sv.sv_i) ≡ done (0, s3))
      × Lost (swept blocklen false) s sv s3 sv
  written-Lost =
      let inside : sfi_indirect sv.sv_i < s2.device.d_blocks = omega (
        arith,
        (used s sv file nz).0,
        file.fs.on_disk,
        slot_indirect s sv,
        ap (λ d. d.d_blocks) p.same_device,
      ) in
      let device = after_write s2.device (sfi_indirect sv.sv_i) b.idbuf 0 in
      let s3 : SfsFs = record s2 { device = device } in
      let here = λ (x : ℕ → ℕ).
        let e : update s2.device.sector (sfi_indirect sv.sv_i) x (sfi_indirect sv.sv_i) ≡ x =
          rw (eq→== (sfi_indirect sv.sv_i) (sfi_indirect sv.sv_i) refl) refl in
        e in
      (
        s3,
        wblock_ok s2 p.IsFs'.works (sfi_indirect sv.sv_i) inside p.IsFs'.small b.idbuf,
        swept-Lost s sv file nz p false s3 sv
            (λ j h. slot_direct s3 sv j h ∙ sym (slot_direct s sv j h))
            (λ k h.
              slot_entry s3 sv k h nz
              ∙ (ap (λ c. word c k) (here (blit s2.device.lh_buf 0 b.idbuf 0 512))
                  ∙ word-blit s2.device.lh_buf b.idbuf k h))
            (slot_indirect s3 sv ∙ sym (slot_indirect s sv)) (λ c. refl)
            (λ c h.
              rw (ne→== c (sfi_indirect sv.sv_i) (λ e. h (e ∙ sym (slot_indirect s sv))))
                (ap (λ d. d.sector c) p.same_device))
            p.same_super (IsFs-device p.IsFs' device refl refl),
      )

  -- Nothing is left in the indirect block, and it is freed.
  pub dropped-Lost :
      b.hasnonzero ≡ false
      → (s3 : SfsFs) × (sfs_bfree s2 (sfi_indirect sv.sv_i) ≡ done s3)
        × Lost (swept blocklen true) s sv s3 (with_block sv 17 0)
  unfolding slot
  dropped-Lost empty =
      let blocks : sp_nblocks s2 ≡ sp_nblocks s = ap (λ x. word x 1) p.same_super in
      let gone_here : sfi_indirect (set_word sv.sv_i 17 0) ≡ 0 =
        word-set_word sv.sv_i 17 0 17 (omega arith) in
      let still : bit s2.freemap.v (sfi_indirect sv.sv_i) ≡ true =
        p.others (sfi_indirect sv.sv_i) (used s sv file nz).1
          (λ k g full e. other s sv file nz k (ground (arith, g)) full e) in
      let (s3, e, fs, bits, device, super) =
        bfree_lem s2 p.IsFs' (sfi_indirect sv.sv_i) (rw blocks (used s sv file nz).0) nz still in
      (
        s3,
        e,
        swept-Lost s sv file nz p true s3 (with_block sv 17 0)
            (λ j h. ground (arith, word-set_word sv.sv_i 17 0 (2 + j) (omega arith)))
            (λ k h.
              slot_none s3 (with_block sv 17 0) k h gone_here
              ∙ sym ((p.seen empty).1 k (omega arith) h))
            gone_here bits (λ c h. ap (λ d. d.sector c) (device ∙ p.same_device))
            (super ∙ p.same_super) fs,
      )

module _ (s : SfsFs) (sv : SfsVnode) (file : IsFile s sv) (nz : sfi_indirect sv.sv_i ≢ 0)
    (blocklen : ℕ) where
  -- The part about the indirect block: no failure, and the slots past `blocklen` are empty.
  pub trunc_indirect-Lost :
      (drop : Bool) × (s' : SfsFs) × (sv' : SfsVnode) × (trunc_indirect blocklen s sv
        ≡ done (0, s', sv'))
      × Lost (swept blocklen drop) s sv s' sv'
      × Rest sv sv'
  unfolding trunc_indirect
  trunc_indirect-Lost =
      let inside : sfi_indirect sv.sv_i < s.device.d_blocks =
        omega (arith, (used s sv file nz).0, file.fs.on_disk, slot_indirect s sv) in
      let read = rblock_ok s file.fs.works (sfi_indirect sv.sv_i) inside file.fs.small (λ a. 0) in
      let fs : IsFs (after_rblock s sv) =
        IsFs-device file.fs (after_rblock s sv).device refl refl in
      let (s2, b, ran, p) =
        trunc_entries-Swept 128 0 blocklen (after_rblock s sv) (read_buf s sv) fs
          (read-Live s sv file nz) in
      elim (Bool-cases b.hasnonzero) [
        | inr empty ↦
            let (s3, freed, lost) = dropped-Lost s sv file nz p empty in
            (
              true,
              s3,
              with_block sv 17 0,
              rw (read, ran, empty, freed) refl,
              lost,
              Rest-word Rest-refl 17 0 (λ e. omega (arith, e)),
            )
        | inl some_left ↦ elim (Bool-cases b.iddirty) [
          | inl dirty ↦
              let (s3, wrote, lost) = written-Lost s sv file nz p in
              (false, s3, sv, rw (read, ran, some_left, dirty, wrote) refl, lost, Rest-refl)
          | inr clean ↦ (
            false,
            s2,
            sv,
            rw (read, ran, some_left, clean) refl,
            kept-Lost s sv file nz p clean,
            Rest-refl,
          )
        ]
      ]
