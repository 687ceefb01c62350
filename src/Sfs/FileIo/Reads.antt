-- ===== src/Sfs/FileIo/Reads.antt =====
-- Reading from one block of a file, on a disk that works.
use cs350_os.Uio.Zeros.{uiomovezeros_lem}
use cs350_os.Sfs.FileIo.Blocks.{Ready, block_move_read}
use cs350_os.Sfs.Space.{rblock_ok}
use cs350_os.Sfs.FileIo.Steps.{block_inside}
use native.Mathlib.Decide.{ℕ_discrete}
use cs350_os.Uio.Moves.{Reaches, uiomove_read}
use mathlib.Core.Path.{fun_ext}
use cs350_os.Sfs.Map.Extend.{IsFile-read}
use cs350_os.Disk.Sector.{after_read}
use cs350_os.Sfs.Map.Slots.{IsFile, file_byte, slot_same, slot}
use cs350_os.Sfs.Map.Look.{Read, bmap-Looks}
use cs350_os.Files.Io.{Uio}
use cs350_os.Uio.{Env, blit, is_read, advance}
use cs350_os.Sfs.{SfsFs, SfsVnode, sfi_indirect}
use cs350_os.Base.{
  ℕ, ◌+◌, ◌-◌, ◌*◌, ◌/◌, ◌%◌, ◌<◌, ◌≤◌, ◌≡◌, ◌≢◌, true, done, arith, ltb, leb, refl, ◌∙◌, ap,
  Bool-cases, ◌&&◌, inr, inl, ne→==, sym,
}
use cs350_os.Sfs.FileIo.{IoResult, sfs_partialio, partial_move, sfs_blockio}

-- What a step of a read of `n` bytes does.
abbrev pub Reads : SfsFs → SfsVnode → (ℕ → ℕ) → Uio → ℕ → IoResult → Type 0
Reads s sv m u n r =
    (s' : SfsFs) × (r ≡ done (0, s', sv, blit m u.base (file_byte s sv) u.offset n, advance u n))
    × Read s sv s'

-- A read leaves the bytes of the file as they are.
pub Read-file_byte :
    (s : SfsFs) (sv : SfsVnode) (s' : SfsFs)
    → Read s sv s'
    → (p : ℕ) → file_byte s' sv p ≡ file_byte s sv p
Read-file_byte s sv s' (file, sectors, map, super) p =
    rw (slot_same s s' sv (p / 512) (ap (λ f. f (sfi_indirect sv.sv_i)) sectors), sectors) refl

pub Read-trans :
    (s : SfsFs) (sv : SfsVnode) (s1 s2 : SfsFs) → Read s sv s1 → Read s1 sv s2 → Read s sv s2
Read-trans s sv s1 s2 (f1, a1, b1, c1) (f2, a2, b2, c2) = (f2, a2 ∙ a1, b2 ∙ b1, c2 ∙ c1)

-- A disk block has been read.
pub Read-after :
    (s : SfsFs) (sv : SfsVnode) (c : ℕ)
    → IsFile s sv
    → Read s sv (record s { device = after_read s.device c })
Read-after s sv c file = (IsFile-read c file, refl, refl, refl)

module _ (env : Env) (s : SfsFs) (sv : SfsVnode) (file : IsFile s sv) (m : ℕ → ℕ) (u : Uio)
    (in_file : u.offset < 143 * 512) (dir : is_read u.rw ≡ true) where
  -- The bytes of one block that reach the memory of the uio are those of the file.
  zeros_bytes :
      (skip len : ℕ)
      → slot s sv (u.offset / 512) ≡ 0
      → u.offset % 512 + len ≤ 512
      → blit m u.base (λ a. 0) skip len ≡ blit m u.base (file_byte s sv) u.offset len
  zeros_bytes skip len z one = fun_ext (λ a.
      elim (Bool-cases (leb u.base a && ltb a (u.base + len))) [
        | inr e ↦ rw e refl
        | inl e ↦
            let same : (u.offset + (a - u.base)) / 512 ≡ u.offset / 512 = ground arith in
            rw (e, same, z) refl
      ])

  block_bytes :
      (buf : ℕ → ℕ) (skip len : ℕ)
      → slot s sv (u.offset / 512) ≢ 0
      → skip ≡ u.offset % 512
      → u.offset % 512 + len ≤ 512
      → ((a : ℕ) → a < 512 → buf a ≡ s.device.sector (slot s sv (u.offset / 512)) a)
      → blit m u.base buf skip len ≡ blit m u.base (file_byte s sv) u.offset len
  block_bytes buf skip len nz sk one same_buf = fun_ext (λ a.
      elim (Bool-cases (leb u.base a && ltb a (u.base + len))) [
        | inr e ↦ rw e refl
        | inl e ↦
            let same : (u.offset + (a - u.base)) / 512 ≡ u.offset / 512 = ground arith in
            let part : (u.offset + (a - u.base)) % 512 ≡ skip + (a - u.base) = ground arith in
            rw (e, same, part, ne→== (slot s sv (u.offset / 512)) 0 nz)
              (same_buf (skip + (a - u.base)) (ground arith))
      ])

  -- Block `k`, once the map has been read.
  still_inside :
      (s1 : SfsFs)
      → Read s sv s1
      → slot s sv (u.offset / 512) ≢ 0
      → slot s sv (u.offset / 512) < s1.device.d_blocks
  still_inside s1 (file1, sectors, map, super) nz =
      let same = slot_same s s1 sv (u.offset / 512) (ap (λ f. f (sfi_indirect sv.sv_i)) sectors) in
      rw (← same) (block_inside s1 sv file1 (u.offset / 512) (omega arith) (λ z. nz (sym same ∙ z)))

  -- A read of a part of a block.
  pub partial_Reads :
      (len : ℕ)
      → 0 < len
      → Reaches env u len
      → len ≤ u.len
      → len ≤ u.resid
      → u.offset % 512 + len ≤ 512
      → Reads s sv m u len (sfs_partialio env s sv m u (u.offset % 512) len)
  unfolding sfs_partialio partial_move
  partial_Reads len pos reach fits left one =
      let k : ℕ = u.offset / 512 in
      let room : leb (u.offset % 512 + len) 512 ≡ true = ground arith in
      let (s1, e, read) = bmap-Looks s sv file k (omega arith) in
      elim (ℕ_discrete (slot s sv k) 0) [
        | yes z ↦ (
          s1,
          rw
              (
                room,
                dir,
                e,
                z,
                uiomove_read env (λ a. 0) (u.offset % 512) len m u pos reach fits left dir,
              )
              (ap (λ x. done (0, s1, sv, x, advance u len))
                (zeros_bytes (u.offset % 512) len z one)),
          read,
        )
        | no nz ↦
            let b : ℕ = slot s sv k in
            let s2 : SfsFs = record s1 { device = after_read s1.device b } in
            let buf : ℕ → ℕ = blit (λ a. 0) 0 (s1.device.sector b) 0 512 in
            let got =
              rblock_ok s1 read.0.fs.works b (still_inside s1 read nz) read.0.fs.small (λ a. 0) in
            (
              s2,
              rw
                  (
                    room,
                    dir,
                    e,
                    ne→== b 0 nz,
                    got,
                    uiomove_read env buf (u.offset % 512) len m u pos reach fits left dir,
                  )
                  (ap (λ x. done (0, s2, sv, x, advance u len))
                    (block_bytes buf (u.offset % 512) len nz refl one
                      (λ a h. rw read.1 (ground arith)))),
              Read-trans s sv s1 s2 read (Read-after s1 sv b read.0),
            )
      ]

  -- A read of a whole block.
  pub block_Reads :
      Ready env u 512 → u.offset % 512 ≡ 0 → Reads s sv m u 512 (sfs_blockio env s sv m u)
  unfolding sfs_blockio
  block_Reads ready at_block =
      let k : ℕ = u.offset / 512 in
      let (s1, e, read) = bmap-Looks s sv file k (omega arith) in
      elim (ℕ_discrete (slot s sv k) 0) [
        | yes z ↦ (
          s1,
          rw
              (
                dir,
                e,
                z,
                uiomovezeros_lem env 512 m u ready.fits ready.left
                    (omega (arith, ready.low), omega (arith, ready.low)) ready.reach dir,
              )
              (ap (λ x. done (0, s1, sv, x, advance u 512))
                (zeros_bytes 0 512 z (omega (arith, at_block)))),
          read,
        )
        | no nz ↦
            let b : ℕ = slot s sv k in
            (
              record s1 { device = after_read s1.device b },
              rw
                  (
                    dir,
                    e,
                    ne→== b 0 nz,
                    block_move_read env s1 sv read.0 m u ready b (still_inside s1 read nz) dir,
                  )
                  (ap
                    (λ x.
                      done (0, record s1 { device = after_read s1.device b }, sv, x, advance u 512))
                    (block_bytes (s1.device.sector b) 0 512 nz (sym at_block)
                      (omega (arith, at_block)) (λ a h. rw read.1 refl))),
              Read-trans s sv s1 (record s1 { device = after_read s1.device b }) read
                  (Read-after s1 sv b read.0),
            )
      ]
