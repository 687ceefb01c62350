-- ===== src/Sfs/Map/Look.antt =====
-- `sfs_bmap` that does not allocate, on a disk that works.
use mathlib.Core.Path.{subst}
use native.Mathlib.Decide.{ℕ_discrete, dec_lt}
use cs350_os.Base.{
  ℕ, ◌+◌, ◌-◌, ◌/◌, ◌%◌, ◌<◌, ◌≤◌, ◌≡◌, Bool, true, false, some, none, done, arith, ltb, ◌==◌, refl,
  ◌&&◌, ◌∙◌, lt→ltb, sym, ap, ne→==, Outcome, Option,
}
use cs350_os.Base.Errno.{einval}
use cs350_os.Uio.{blit}
use cs350_os.Disk.Sector.{after_read}
use cs350_os.Sfs.{SfsFs, SfsVnode, sfi_indirect, word}
use cs350_os.Sfs.Words.{word-blit}
use cs350_os.Sfs.Space.{rblock_ok}
use cs350_os.Sfs.Map.{sfs_bmap, bmap_direct, bmap_indirect, bmap_entry, hand_back}
use cs350_os.Sfs.Map.Slots.{slot, IsFile, slot_direct, slot_entry, slot_none}
use cs350_os.Sfs.Map.Extend.{IsFile-read, read_slot}
use cs350_os.Sfs.Map.Alloc.{hand_back_lem, indirect_inside}

-- Blocks may have been read, and nothing has changed.
abbrev pub Read : SfsFs → SfsVnode → SfsFs → Type 0
Read s sv s' =
    IsFile s' sv
    × (s'.device.sector ≡ s.device.sector)
    × (s'.freemap ≡ s.freemap)
    × (s'.super ≡ s.super)

module _ (s : SfsFs) (sv : SfsVnode) (file : IsFile s sv) where
  -- Any block of the file is handed back, and 0 where there is none.
  hand_back_slot :
      (k : ℕ) → k < 143 → hand_back s sv (slot s sv k) ≡ done (0, some (slot s sv k), s, sv)
  unfolding hand_back
  hand_back_slot k h = elim (ℕ_discrete (slot s sv k) 0) [
    | yes z ↦ rw z refl
    | no nz ↦ hand_back_lem s sv file k (omega arith) nz
  ]

  direct_lem : (k : ℕ) → k < 15 → bmap_direct s sv k false ≡ done (0, some (slot s sv k), s, sv)
  unfolding bmap_direct
  direct_lem k h =
      let here = slot_direct s sv k h in
      let keep : (slot s sv k == 0 && false) ≡ false = ground arith in
      rw (← here, keep) (hand_back_slot k (omega arith))

  entry_lem :
      (idbuf : ℕ → ℕ) (c o : ℕ)
      → o < 128
      → word idbuf o ≡ slot s sv (15 + o)
      → bmap_entry s sv c idbuf o false ≡ done (0, some (slot s sv (15 + o)), s, sv)
  unfolding bmap_entry
  entry_lem idbuf c o h here =
      let keep : (slot s sv (15 + o) == 0 && false) ≡ false = ground arith in
      rw (here, keep) (hand_back_slot (15 + o) (omega arith))

-- The result of looking at block `k`.
abbrev pub Looks : SfsFs → SfsVnode → ℕ → Outcome (ℕ × Option ℕ × SfsFs × SfsVnode) → Type 0
Looks s sv k r = (s' : SfsFs) × (r ≡ done (0, some (slot s sv k), s', sv)) × Read s sv s'

module _ (s : SfsFs) (sv : SfsVnode) (file : IsFile s sv) where
  indirect_lem : (o : ℕ) → o < 128 → Looks s sv (15 + o) (bmap_indirect s sv o false)
  unfolding bmap_indirect
  indirect_lem o h = elim (ℕ_discrete (sfi_indirect sv.sv_i) 0) [
    | yes z ↦ (s, rw (z, slot_none s sv o h z) refl, (file, refl, refl, refl))
    | no nz ↦
        let c : ℕ = sfi_indirect sv.sv_i in
        let inside : c < s.device.d_blocks =
          omega (arith, indirect_inside s sv file nz, file.fs.on_disk) in
        let s1 : SfsFs = record s { device = after_read s.device c } in
        let idbuf : ℕ → ℕ = blit (λ a. 0) 0 (s.device.sector c) 0 512 in
        let same = read_slot s sv c (15 + o) (omega arith) in
        let here : word idbuf o ≡ slot s1 sv (15 + o) =
          word-blit (λ a. 0) (s.device.sector c) o h ∙ (sym (slot_entry s sv o h nz) ∙ sym same) in
        (
          s1,
          rw (ne→== c 0 nz, rblock_ok s file.fs.works c inside file.fs.small (λ a. 0))
              (entry_lem s1 sv (IsFile-read c file) idbuf c o h here
                ∙ ap (λ b. done (0, some b, s1, sv)) same),
          (IsFile-read c file, refl, refl, refl),
        )
  ]

  pub bmap-Looks : (k : ℕ) → k < 143 → Looks s sv k (sfs_bmap s sv k false)
  unfolding sfs_bmap
  bmap-Looks k h = elim (dec_lt k 15) [
    | yes lt ↦ (s, rw (lt→ltb k 15 lt) (direct_lem s sv file k lt), (file, refl, refl, refl))
    | no ge ↦
        let direct : ltb k 15 ≡ false = ground arith in
        let first : ltb 0 ((k - 15) / 128) ≡ false = ground arith in
        let o : (k - 15) % 128 ≡ k - 15 = omega arith in
        let at : 15 + (k - 15) ≡ k = omega arith in
        rw (direct, first, o)
          (subst (λ (x : ℕ). Looks s sv x (bmap_indirect s sv (k - 15) false)) at
            (indirect_lem (k - 15) (omega arith)))
  ]

-- A block that no inode can name.
pub bmap_too_far :
    (s : SfsFs) (sv : SfsVnode) (k : ℕ) (doalloc : Bool)
    → 143 ≤ k
    → sfs_bmap s sv k doalloc ≡ done (einval, none, s, sv)
unfolding sfs_bmap
bmap_too_far s sv k doalloc h =
    let direct : ltb k 15 ≡ false = ground arith in
    let far : ltb 0 ((k - 15) / 128) ≡ true = ground arith in rw (direct, far) refl
