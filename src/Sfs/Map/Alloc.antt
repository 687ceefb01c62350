-- ===== src/Sfs/Map/Alloc.antt =====
-- `sfs_bmap` that allocates, on a disk that works.
use mathlib.Core.Path.{subst}
use native.Mathlib.Decide.{ℕ_discrete, dec_lt}
use cs350_os.Base.{
  ℕ, ◌+◌, ◌-◌, ◌/◌, ◌%◌, ◌<◌, ◌≡◌, ◌≢◌, ◌⊎◌, inl, inr, true, false, Option, some, none, Outcome,
  done, arith, ltb, refl, ne→==, ◌∙◌, ap, sym, eq→==, lt→ltb,
}
use cs350_os.Base.Errno.{enospc}
use cs350_os.Bitmap.Bits.{bit}
use cs350_os.Disk.Sector.{after_read}
use cs350_os.Uio.{blit}
use cs350_os.Sfs.{SfsFs, SfsVnode, word, sfi_indirect, set_word, sp_nblocks}
use cs350_os.Sfs.Words.{word-blit, word-agree}
use cs350_os.Sfs.Space.{balloc_fresh, bused_lem, rblock_ok, wblock_ok}
use cs350_os.Sfs.Map.{hand_back, bmap_direct, bmap_entry, bmap_indirect, sfs_bmap}
use cs350_os.Sfs.Map.Slots.{
  slot, IsFile, Grown, slot_here, slot_other, slot_direct, slot_entry, slot_indirect,
}
use cs350_os.Sfs.Map.Extend.{
  Extends, Extends-refl, Extends-trans, Extends-read, Grown-Extends, IsFile-read, read_slot,
}
use cs350_os.Sfs.Map.Grow.{with_block, grow_direct, grow_indirect, grow_entry}

-- A call of `sfs_bmap` that allocates returns 0 and the block of the file, or ENOSPC; no other block of
-- the file is mapped in another way.
abbrev pub Maps : SfsFs → SfsVnode → ℕ → Outcome (ℕ × Option ℕ × SfsFs × SfsVnode) → Type 0
Maps s sv k r =
    ((b : ℕ) × (s' : SfsFs) × (sv' : SfsVnode) × (r ≡ done (0, some b, s', sv'))
      × Extends s sv s' sv'
      × (slot s' sv' k ≡ b)
      × (b ≢ 0)
      × ((j : ℕ) → j < 143 → j ≢ k → slot s' sv' j ≡ slot s sv j))
    ⊎ ((s' : SfsFs) × (sv' : SfsVnode) × (r ≡ done (enospc, none, s', sv'))
        × Extends s sv s' sv'
        × ((j : ℕ) → j < 143 → slot s' sv' j ≡ slot s sv j))

module _ (s : SfsFs) (sv : SfsVnode) (file : IsFile s sv) where
  pub hand_back_lem :
      (k : ℕ)
      → k < 144
      → slot s sv k ≢ 0
      → hand_back s sv (slot s sv k) ≡ done (0, some (slot s sv k), s, sv)
  unfolding hand_back
  hand_back_lem k h nz =
      let (inside, used) = file.used k h nz in
      rw (ne→== (slot s sv k) 0 nz, bused_lem s file.fs (slot s sv k) inside, used) refl

  Maps-old :
      {k : ℕ} {r : Outcome (ℕ × Option ℕ × SfsFs × SfsVnode)}
      → k < 144
      → slot s sv k ≢ 0
      → r ≡ hand_back s sv (slot s sv k)
      → Maps s sv k r
  Maps-old {k} h nz e =
      inl
        (slot s sv k, s, sv, e ∙ hand_back_lem k h nz, Extends-refl file, refl, nz, λ j lt ne. refl)

  Maps-full :
      {k : ℕ} {r : Outcome (ℕ × Option ℕ × SfsFs × SfsVnode)}
      → r ≡ done (enospc, none, s, sv)
      → Maps s sv k r
  Maps-full e = inr (s, sv, e, Extends-refl file, λ j h. refl)

  Maps-new :
      {k b : ℕ} {s' : SfsFs} {sv' : SfsVnode} {r : Outcome (ℕ × Option ℕ × SfsFs × SfsVnode)}
      → Grown s sv k b s' sv'
      → r ≡ done (0, some b, s', sv')
      → Maps s sv k r
  Maps-new {k} {b} {s'} {sv'} g e = inl (
    b,
    s',
    sv',
    e,
    Grown-Extends file g,
    slot_here file g,
    g.nonzero,
    λ j h ne. slot_other file g j (omega arith) ne,
  )

  hand_back_new :
      {k b : ℕ} {s' : SfsFs} {sv' : SfsVnode}
      → Grown s sv k b s' sv'
      → hand_back s' sv' b ≡ done (0, some b, s', sv')
  unfolding hand_back
  hand_back_new {k} {b} {s'} {sv'} g =
      let inside : b < sp_nblocks s' = rw (ap (λ x. word x 1) g.same_super) g.inside in
      let used : bit s'.freemap.v b ≡ true = g.bits b ∙ rw (eq→== b b refl) refl in
      rw (ne→== b 0 g.nonzero, bused_lem s' g.IsFs' b inside, used) refl

  direct_Maps : (k : ℕ) → k < 15 → Maps s sv k (bmap_direct s sv k true)
  unfolding bmap_direct
  direct_Maps k h = elim (ℕ_discrete (slot s sv k) 0) [
    | no nz ↦
        let filled : word sv.sv_i (2 + k) ≡ slot s sv k = sym (slot_direct s sv k h) in
        Maps-old (omega arith) nz (rw (filled, ne→== (slot s sv k) 0 nz) refl)
    | yes z ↦
        let empty : word sv.sv_i (2 + k) ≡ 0 = sym (slot_direct s sv k h) ∙ z in
        elim (balloc_fresh s file.fs) [
          | inr (full, all) ↦ Maps-full (rw (empty, full) refl)
          | inl (b, s', e, fresh) ↦
              let g = grow_direct file fresh k h z in Maps-new g (rw (empty, e) (hand_back_new g))
        ]
  ]

  pub indirect_inside : sfi_indirect sv.sv_i ≢ 0 → sfi_indirect sv.sv_i < sp_nblocks s
  indirect_inside nz =
      let at = slot_indirect s sv in
      rw (← at) (file.used 143 (omega arith) (λ z. nz (sym at ∙ z))).0

  -- The indirect block is there, and its numbers are in `idbuf`.
  entry_Maps :
      (idbuf : ℕ → ℕ) (o : ℕ)
      → o < 128
      → sfi_indirect sv.sv_i ≢ 0
      → ((j : ℕ) → j < 128 → word idbuf j ≡ word (s.device.sector (sfi_indirect sv.sv_i)) j)
      → Maps s sv (15 + o) (bmap_entry s sv (sfi_indirect sv.sv_i) idbuf o true)
  unfolding bmap_entry
  entry_Maps idbuf o h some_block read =
      let here : word idbuf o ≡ slot s sv (15 + o) =
        read o h ∙ sym (slot_entry s sv o h some_block) in
      elim (ℕ_discrete (slot s sv (15 + o)) 0) [
        | no nz ↦ Maps-old (omega arith) nz (rw (here, ne→== (slot s sv (15 + o)) 0 nz) refl)
        | yes z ↦ elim (balloc_fresh s file.fs) [
          | inr (full, all) ↦ Maps-full (rw (here, z, full) refl)
          | inl (b, s', e, fresh) ↦
              let g = grow_entry file fresh idbuf o h some_block read z in
              let inside : sfi_indirect sv.sv_i < s'.device.d_blocks =
                let blocks : sp_nblocks s' ≡ sp_nblocks s = ap (λ x. word x 1) fresh.same_super in
                omega (arith, indirect_inside some_block, blocks, fresh.IsFs'.on_disk) in
              Maps-new g (
                rw
                  (
                    here,
                    z,
                    e,
                    wblock_ok s' fresh.IsFs'.works (sfi_indirect sv.sv_i) inside fresh.IsFs'.small
                        (set_word idbuf o b),
                  )
                  (hand_back_new g))
        ]
      ]

-- What the map was extended to before is part of the extension.
Maps-after :
    {s : SfsFs} {sv : SfsVnode} {s1 : SfsFs} {sv1 : SfsVnode} {k : ℕ}
    {r : Outcome (ℕ × Option ℕ × SfsFs × SfsVnode)}
    → Extends s sv s1 sv1
    → ((j : ℕ) → j < 143 → slot s1 sv1 j ≡ slot s sv j)
    → Maps s1 sv1 k r
    → Maps s sv k r
Maps-after p same (inl (b, s', sv', e, q, here, nz, others)) =
    inl (b, s', sv', e, Extends-trans p q, here, nz, λ j h ne. others j h ne ∙ same j h)
Maps-after p same (inr (s', sv', e, q, others)) =
    inr (s', sv', e, Extends-trans p q, λ j h. others j h ∙ same j h)

entry_at :
    (s : SfsFs) (sv : SfsVnode) (k idblock : ℕ) (idbuf : ℕ → ℕ) (o : ℕ)
    → idblock ≡ sfi_indirect sv.sv_i
    → Maps s sv k (bmap_entry s sv (sfi_indirect sv.sv_i) idbuf o true)
    → Maps s sv k (bmap_entry s sv idblock idbuf o true)
entry_at s sv k idblock idbuf o e h = rw e h

module _ (s : SfsFs) (sv : SfsVnode) (file : IsFile s sv) where
  indirect_Maps : (o : ℕ) → o < 128 → Maps s sv (15 + o) (bmap_indirect s sv o true)
  unfolding bmap_indirect
  indirect_Maps o h = elim (ℕ_discrete (sfi_indirect sv.sv_i) 0) [
    | no nz ↦
        let inside : sfi_indirect sv.sv_i < s.device.d_blocks =
          omega (arith, indirect_inside s sv file nz, file.fs.on_disk) in
        let s1 : SfsFs = record s { device = after_read s.device (sfi_indirect sv.sv_i) } in
        let idbuf : ℕ → ℕ = blit (λ a. 0) 0 (s.device.sector (sfi_indirect sv.sv_i)) 0 512 in
        rw
          (
            ne→== (sfi_indirect sv.sv_i) 0 nz,
            rblock_ok s file.fs.works (sfi_indirect sv.sv_i) inside file.fs.small (λ a. 0),
          )
          (Maps-after (Extends-read (sfi_indirect sv.sv_i) file)
            (read_slot s sv (sfi_indirect sv.sv_i))
            (entry_Maps s1 sv (IsFile-read (sfi_indirect sv.sv_i) file) idbuf o h nz
              (λ j k. word-blit (λ a. 0) (s.device.sector (sfi_indirect sv.sv_i)) j k)))
    | yes z ↦ elim (balloc_fresh s file.fs) [
      | inr (full, all) ↦ rw (z, full) (Maps-full s sv file refl)
      | inl (b, s', e, fresh) ↦
          let g = grow_indirect file fresh z in
          let sv1 : SfsVnode = with_block sv 17 b in
          let ext = Grown-Extends file g in
          let here : b ≡ sfi_indirect sv1.sv_i = sym (slot_here file g) ∙ slot_indirect s' sv1 in
          let zeros : (j : ℕ)
              → j < 128
              → word (λ a. 0) j ≡ word (s'.device.sector (sfi_indirect sv1.sv_i)) j =
            λ j k.
              word-agree (λ a. 0) (s'.device.sector (sfi_indirect sv1.sv_i)) j
                (λ a lt. rw (← here) (sym (fresh.zeros a lt))) k in
          rw (z, e)
            (Maps-after ext (λ j k. slot_other file g j (omega arith) (omega arith))
              (entry_at s' sv1 (15 + o) b (λ a. 0) o here
                (entry_Maps s' sv1 ext.IsFile' (λ a. 0) o h (λ nz. fresh.nonzero (here ∙ nz))
                  zeros)))
    ]
  ]

  -- On a disk that works, and a file whose blocks are in use and all different, `sfs_bmap` that may
  -- allocate, of a block that an inode can name, either returns 0 with the block that it has mapped
  -- there, which is not 0, or returns ENOSPC. In both cases the file is still valid, each block that
  -- was mapped still is, any other is a block that was free, no byte of the file has changed, and no
  -- block that was in use, but the indirect block, has changed. No assertion of it fails.
  pub bmap_allocates : (k : ℕ) → k < 143 → Maps s sv k (sfs_bmap s sv k true)
  unfolding sfs_bmap
  bmap_allocates k h = elim (dec_lt k 15) [
    | yes lt ↦ rw (lt→ltb k 15 lt) (direct_Maps s sv file k lt)
    | no ge ↦
        let direct : ltb k 15 ≡ false = ground arith in
        let first : ltb 0 ((k - 15) / 128) ≡ false = ground arith in
        let o : (k - 15) % 128 ≡ k - 15 = omega arith in
        let at : 15 + (k - 15) ≡ k = omega arith in
        rw (direct, first, o)
          (subst (λ (x : ℕ). Maps s sv x (bmap_indirect s sv (k - 15) true)) at
            (indirect_Maps (k - 15) (omega arith)))
  ]
