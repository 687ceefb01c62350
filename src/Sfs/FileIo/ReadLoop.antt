-- ===== src/Sfs/FileIo/ReadLoop.antt =====
-- A read through all its blocks.
use native.Mathlib.Decide.{ℕ_discrete}
use cs350_os.Sfs.FileIo.WriteLoop.{Ready-IsUio, Ready-less, Ready-advance}
use cs350_os.Sfs.FileIo.Reads.{Reads, block_Reads, Read-file_byte, Read-trans, partial_Reads}
use mathlib.Core.Path.{fun_ext, subst}
use cs350_os.Uio.Zeros.{IsUio, blit_none, advance_none, advance_add}
use cs350_os.Sfs.Map.Look.{Read}
use cs350_os.Sfs.FileIo.Blocks.{Ready}
use cs350_os.Sfs.Map.Slots.{file_byte, IsFile}
use cs350_os.Files.Io.{Uio}
use cs350_os.Sfs.{SfsFs, SfsVnode}
use cs350_os.Uio.{Env, blit, is_read, advance}
use cs350_os.Base.{
  ℕ, zero, suc, ◌+◌, ◌-◌, ◌*◌, ◌%◌, ◌^◌, ◌<◌, ◌≤◌, ◌≡◌, true, done, arith, leb, refl, Bool-cases,
  ◌∙◌, inl, inr, ap, sym, if◌then◌else◌, ltb, ◌/◌, ◌≢◌, ◌==◌, eq→==, false, ne→==, ◌>>=◌,
}
use cs350_os.Sfs.FileIo.{IoResult, io_blocks, io_aligned, after_first, io_body, sfs_partialio}

module _ (env : Env) (s : SfsFs) (sv : SfsVnode) (m : ℕ → ℕ) (u : Uio) where
  -- The memory after the two steps of a read.
  blit_again :
      (s1 : SfsFs) (x y : ℕ)
      → u.offset + x < 2 ^ 32
      → ((p : ℕ) → file_byte s1 sv p ≡ file_byte s sv p)
      → blit
          (blit m u.base (file_byte s sv) u.offset x)
          (u.base + x)
          (file_byte s1 sv)
          ((u.offset + x) % 2 ^ 32)
          y
        ≡ blit m u.base (file_byte s sv) u.offset (x + y)
  blit_again s1 x y low same = fun_ext (λ a.
      let off : (u.offset + x) % 2 ^ 32 ≡ u.offset + x = omega arith in
      rw (off, same (u.offset + x + (a - (u.base + x))))
        (elim (Bool-cases (leb (u.base + x) a)) [
          | inl e ↦
              let at : u.offset + x + (a - (u.base + x)) ≡ u.offset + (a - u.base) = ground arith in
              rw at (ground arith)
          | inr e ↦ ground arith
        ]))

  pub then_Reads :
      (s1 : SfsFs) (x y : ℕ) {r : IoResult}
      → Ready env u (x + y)
      → Read s sv s1
      → Reads s1 sv (blit m u.base (file_byte s sv) u.offset x) (advance u x) y r
      → Reads s sv m u (x + y) r
  then_Reads s1 x y ready read (s', e, read') = (
    s',
    e
        ∙ (rw
            (blit_again s1 x y (omega (arith, ready.left, ready.low)) (Read-file_byte s sv s1 read))
            (ap (λ v. done (0, s', sv, blit m u.base (file_byte s sv) u.offset (x + y), v))
              (advance_add u x y ready.left (Ready-IsUio ready)))),
    Read-trans s sv s1 s' read read',
  )

pub none_Reads :
    (s : SfsFs) (sv : SfsVnode) (m : ℕ → ℕ) (u : Uio)
    → IsFile s sv
    → IsUio u
    → Reads s sv m u 0 (done (0, s, sv, m, u))
none_Reads s sv m u file small = (
  s,
  rw (blit_none m u.base (file_byte s sv) u.offset, advance_none u small) refl,
  (file, refl, refl, refl),
)

blocks_Reads :
    (n : ℕ) (env : Env) (s : SfsFs) (sv : SfsVnode) (m : ℕ → ℕ) (u : Uio)
    → IsFile s sv
    → Ready env u (n * 512)
    → is_read u.rw ≡ true
    → u.offset % 512 ≡ 0
    → u.offset + n * 512 ≤ 143 * 512
    → Reads s sv m u (n * 512) (io_blocks n env s sv m u)
unfolding io_blocks
blocks_Reads zero env s sv m u file ready dir at_block fits =
    none_Reads s sv m u file (Ready-IsUio ready)
blocks_Reads (suc n) env s sv m u file ready dir at_block fits =
    let total : 512 + n * 512 ≡ suc n * 512 = omega arith in
    let ready' : Ready env u (512 + n * 512) = rw total ready in
    let (s1, e, read) =
      block_Reads env s sv file m u (omega arith) dir (Ready-less 512 (n * 512) ready') at_block in
    subst (λ (x : ℕ). Reads s sv m u x (io_blocks (suc n) env s sv m u)) total
      (then_Reads env s sv m u s1 512 (n * 512) ready' read (
        rw e (
          blocks_Reads n env s1 sv (blit m u.base (file_byte s sv) u.offset 512) (advance u 512)
            read.0 (Ready-advance 512 (n * 512) ready') dir (omega (arith, ready.low))
            (omega (arith, ready.low)))))

module _ (env : Env) (s : SfsFs) (sv : SfsVnode) (file : IsFile s sv) (m : ℕ → ℕ) (u : Uio)
    (ready : Ready env u u.resid) (dir : is_read u.rw ≡ true)
    (fits : u.offset + u.resid ≤ 143 * 512) where
  -- Nothing is left to read.
  over_Reads : u.resid ≡ 0 → Reads s sv m u u.resid (done (0, s, sv, m, u))
  over_Reads z =
      subst (λ (x : ℕ). Reads s sv m u x (done (0, s, sv, m, u))) (sym z)
        (none_Reads s sv m u file (Ready-IsUio ready))

  -- The part of a block at the end.
  tail_Reads :
      u.offset % 512 ≡ 0
      → u.resid < 512
      → Reads s sv m u u.resid
          (if ltb 0 u.resid then sfs_partialio env s sv m u 0 u.resid else done (0, s, sv, m, u))
  tail_Reads at_block short = elim (ℕ_discrete u.resid 0) [
    | yes z ↦ let over : ltb 0 u.resid ≡ false = ground arith in rw over (over_Reads z)
    | no nz ↦
        let more : ltb 0 u.resid ≡ true = ground arith in
        rw more (
          subst (λ (x : ℕ). Reads s sv m u u.resid (sfs_partialio env s sv m u x u.resid)) at_block
            (partial_Reads env s sv file m u (omega arith) dir u.resid (omega arith) ready.reach
              ready.fits ready.left (omega arith)))
  ]

module _ (env : Env) (s : SfsFs) (sv : SfsVnode) (file : IsFile s sv) (m : ℕ → ℕ) (u : Uio)
    (ready : Ready env u u.resid) (dir : is_read u.rw ≡ true)
    (fits : u.offset + u.resid ≤ 143 * 512) where
  aligned_Reads : u.offset % 512 ≡ 0 → Reads s sv m u u.resid (io_aligned env s sv m u)
  unfolding io_aligned
  aligned_Reads at_block =
      let x : ℕ = u.resid / 512 * 512 in
      let rest : ℕ = (advance u x).resid in
      let total : x + rest ≡ u.resid = omega (arith, ready.low) in
      let ready' : Ready env u (x + rest) = rw total ready in
      let aligned : (u.offset % 512 == 0) ≡ true = eq→== (u.offset % 512) 0 at_block in
      let short : ltb rest 512 ≡ true = ground (arith, total, ready.low) in
      let (s1, e, read) =
        blocks_Reads (u.resid / 512) env s sv m u file (Ready-less x rest ready') dir at_block
          (omega arith) in
      subst (λ (y : ℕ). Reads s sv m u y (io_aligned env s sv m u)) total
        (then_Reads env s sv m u s1 x rest ready' read (
          rw (aligned, e, short)
            (tail_Reads env s1 sv read.0 (blit m u.base (file_byte s sv) u.offset x) (advance u x)
              (Ready-advance x rest ready') dir (omega (arith, total, ready.low))
              (omega (arith, total, ready.low)) (omega (arith, total, ready.low)))))

  after_first-Reads :
      (u.resid ≢ 0 → u.offset % 512 ≡ 0) → Reads s sv m u u.resid (after_first env (0, s, sv, m, u))
  unfolding after_first
  after_first-Reads at_block = elim (ℕ_discrete u.resid 0) [
    | yes z ↦ rw (eq→== u.resid 0 z) (over_Reads env s sv file m u ready dir fits z)
    | no more ↦ rw (ne→== u.resid 0 more) (aligned_Reads (at_block more))
  ]

module _ (env : Env) (s : SfsFs) (sv : SfsVnode) (file : IsFile s sv) (m : ℕ → ℕ) (u : Uio)
    (ready : Ready env u u.resid) (dir : is_read u.rw ≡ true)
    (fits : u.offset + u.resid ≤ 143 * 512) where
  -- A read of some bytes that ends within what an inode can map.
  pub body_Reads : 0 < u.resid → Reads s sv m u u.resid (io_body env s sv m u)
  unfolding io_body
  body_Reads some_bytes = elim (ℕ_discrete (u.offset % 512) 0) [
    | yes z ↦
        let more : (u.resid == 0) ≡ false = ground arith in
        rw (z, more) (aligned_Reads env s sv file m u ready dir fits z)
    | no nz ↦
        let len : ℕ =
          if ltb u.resid (512 - u.offset % 512) then u.resid else 512 - u.offset % 512 in
        let rest : ℕ = (advance u len).resid in
        let small : (0 < len) × (len ≤ u.resid) × (u.offset % 512 + len ≤ 512) = ground arith in
        let total : len + rest ≡ u.resid = omega (arith, ready.low, small) in
        let ready' : Ready env u (len + rest) = rw total ready in
        let first = Ready-less len rest ready' in
        let (s1, e, read) =
          partial_Reads env s sv file m u (omega arith) dir len small.0 first.reach first.fits
            first.left small.2 in
        rw (ne→== (u.offset % 512) 0 nz) (
          subst
            (λ (y : ℕ).
              Reads s sv m u y
                (sfs_partialio env s sv m u (u.offset % 512) len >>= after_first env))
            total
            (then_Reads env s sv m u s1 len rest ready' read (
              rw e (
                after_first-Reads env s1 sv read.0 (blit m u.base (file_byte s sv) u.offset len)
                  (advance u len) (Ready-advance len rest ready') dir
                  (omega (arith, total, ready.low))
                  (λ more. ground (arith, total, ready.low, more))))))
  ]
