-- ===== src/Sfs/FileIo/WriteLoop.antt =====
-- A write through all its blocks.
use mathlib.Core.Path.{subst}
use cs350_os.Sfs.Map.Extend.{Extends-refl}
use native.Mathlib.Decide.{ℕ_discrete}
use cs350_os.Base.Errno.{enospc}
use cs350_os.Sfs.FileIo.Steps.{put, partial_Writes, Writes}
use cs350_os.Sfs.FileIo.Edit.{Edits, Edits-trans, Edits-same, Extends-Edits}
use cs350_os.Uio.Zeros.{IsUio, Reaches-less, Reaches-advance, advance_add, advance_none}
use cs350_os.Sfs.Map.Slots.{file_byte, IsFile}
use cs350_os.Sfs.FileIo.Blocks.{Ready, block_Writes}
use cs350_os.Files.Io.{Uio}
use cs350_os.Uio.{Env, advance, is_read}
use cs350_os.Sfs.{SfsFs, SfsVnode}
use cs350_os.Base.{
  ℕ, zero, suc, ◌+◌, ◌-◌, ◌*◌, ◌/◌, ◌%◌, ◌^◌, ◌<◌, ◌≤◌, ◌≡◌, ◌⊎◌, inl, inr, true, false, done,
  arith, ltb, leb, ◌==◌, if◌then◌else◌, refl, Bool-cases, ap, sym, eq→==, ne→==, ◌>>=◌, ◌≢◌,
}
use cs350_os.Sfs.FileIo.{IoResult, io_blocks, io_aligned, sfs_partialio, io_body, after_first}

-- A write of `n` bytes: all are written, or the disk is full after `j` of them.
abbrev pub WritesUpTo : SfsFs → SfsVnode → (ℕ → ℕ) → Uio → ℕ → IoResult → Type 0
WritesUpTo s sv m u n r =
    ((s' : SfsFs) × (sv' : SfsVnode) × (r ≡ done (0, s', sv', m, advance u n))
      × Edits s sv (put s sv m u n) s' sv')
    ⊎ ((j : ℕ) × (s' : SfsFs) × (sv' : SfsVnode) × (r ≡ done (enospc, s', sv', m, advance u j))
        × (j < n)
        × Edits s sv (put s sv m u j) s' sv')

pub Ready-less : {env : Env} {u : Uio} (x y : ℕ) → Ready env u (x + y) → Ready env u x
Ready-less {env} {u} x y r = record {
  reach = Reaches-less env u x y r.reach;
  fits = omega (arith, r.fits);
  left = omega (arith, r.left);
  low = r.low;
}

pub Ready-advance :
    {env : Env} {u : Uio} (x y : ℕ) → Ready env u (x + y) → Ready env (advance u x) y
Ready-advance {env} {u} x y r = record {
  reach = Reaches-advance env u x y r.reach;
  fits = omega (arith, r.fits);
  left = omega (arith, r.left, r.low);
  low = omega (arith, r.left, r.low);
}

pub Ready-IsUio : {env : Env} {u : Uio} {n : ℕ} → Ready env u n → IsUio u
Ready-IsUio r = (omega (arith, r.low), omega (arith, r.low))

module _ (env : Env) (s : SfsFs) (sv : SfsVnode) (m : ℕ → ℕ) (u : Uio) where
  -- The two steps of a write, one after the other.
  put_again :
      (s1 : SfsFs) (sv1 : SfsVnode) (x j p : ℕ)
      → u.offset + x < 2 ^ 32
      → file_byte s1 sv1 p ≡ put s sv m u x p
      → put s1 sv1 m (advance u x) j p ≡ put s sv m u (x + j) p
  put_again s1 sv1 x j p low same =
      let off : (u.offset + x) % 2 ^ 32 ≡ u.offset + x = omega arith in
      rw (off, same)
        (elim (Bool-cases (leb (u.offset + x) p)) [
          | inl e ↦
              let at : u.base + x + (p - (u.offset + x)) ≡ u.base + (p - u.offset) = ground arith in
              ground (arith, ap m at)
          | inr e ↦ ground arith
        ])

  pub then_Writes :
      (s1 : SfsFs) (sv1 : SfsVnode) (x y : ℕ) {r : IoResult}
      → Ready env u (x + y)
      → Edits s sv (put s sv m u x) s1 sv1
      → WritesUpTo s1 sv1 m (advance u x) y r
      → WritesUpTo s sv m u (x + y) r
  then_Writes s1 sv1 x y ready ed (inl (s', sv', e, ed')) = inl (
    s',
    sv',
    rw (← advance_add u x y ready.left (Ready-IsUio ready)) e,
    Edits-trans ed (
        Edits-same (put s sv m u (x + y))
          (λ p h. put_again s1 sv1 x y p (omega (arith, ready.left, ready.low)) (ed.bytes p h))
          ed'),
  )
  then_Writes s1 sv1 x y ready ed (inr (j, s', sv', e, lt, ed')) = inr (
    x + j,
    s',
    sv',
    rw (← advance_add u x j (omega (arith, ready.left, lt)) (Ready-IsUio ready)) e,
    omega arith,
    Edits-trans ed (
        Edits-same (put s sv m u (x + j))
          (λ p h. put_again s1 sv1 x j p (omega (arith, ready.left, ready.low)) (ed.bytes p h))
          ed'),
  )

  pub full_Writes :
      (n : ℕ) (s' : SfsFs) (sv' : SfsVnode) {r : IoResult}
      → 0 < n
      → IsUio u
      → r ≡ done (enospc, s', sv', m, u)
      → Edits s sv (file_byte s sv) s' sv'
      → WritesUpTo s sv m u n r
  full_Writes n s' sv' pos small e ed = inr (
    0,
    s',
    sv',
    rw (advance_none u small) e,
    pos,
    Edits-same (put s sv m u 0) (λ p h. ground arith) ed,
  )

pub none_Writes :
    (s : SfsFs) (sv : SfsVnode) (m : ℕ → ℕ) (u : Uio) {r : IoResult}
    → IsFile s sv
    → IsUio u
    → r ≡ done (0, s, sv, m, u)
    → WritesUpTo s sv m u 0 r
none_Writes s sv m u file small e = inl (
  s,
  sv,
  rw (advance_none u small) e,
  Edits-same (put s sv m u 0) (λ p h. ground arith) (Extends-Edits (Extends-refl file)),
)

pub blocks_Writes :
    (n : ℕ) (env : Env) (s : SfsFs) (sv : SfsVnode) (m : ℕ → ℕ) (u : Uio)
    → IsFile s sv
    → Ready env u (n * 512)
    → is_read u.rw ≡ false
    → u.offset % 512 ≡ 0
    → u.offset + n * 512 ≤ 143 * 512
    → WritesUpTo s sv m u (n * 512) (io_blocks n env s sv m u)
unfolding io_blocks
blocks_Writes zero env s sv m u file ready dir at_block fits =
    none_Writes s sv m u file (Ready-IsUio ready) refl
blocks_Writes (suc n) env s sv m u file ready dir at_block fits =
    let total : 512 + n * 512 ≡ suc n * 512 = omega arith in
    let ready' : Ready env u (512 + n * 512) = rw total ready in
    let first =
      block_Writes env s sv file m u (Ready-less 512 (n * 512) ready') dir (omega arith) at_block in
    elim first [
      | inr (s1, sv1, e, ed) ↦
          full_Writes env s sv m u (suc n * 512) s1 sv1 (omega arith) (Ready-IsUio ready)
            (rw e refl) ed
      | inl (s1, sv1, e, ed) ↦
          subst (λ (x : ℕ). WritesUpTo s sv m u x (io_blocks (suc n) env s sv m u)) total
            (then_Writes env s sv m u s1 sv1 512 (n * 512) ready' ed (
              rw e (
                blocks_Writes n env s1 sv1 m (advance u 512) ed.IsFile'
                  (Ready-advance 512 (n * 512) ready') dir (omega (arith, ready.low))
                  (omega (arith, ready.low)))))
    ]

module _ (env : Env) (s : SfsFs) (sv : SfsVnode) (file : IsFile s sv) (m : ℕ → ℕ) (u : Uio)
    (ready : Ready env u u.resid) (dir : is_read u.rw ≡ false)
    (fits : u.offset + u.resid ≤ 143 * 512) where
  -- A step of a write is a write.
  from_step : (n : ℕ) → 0 < n → {r : IoResult} → Writes s sv m u n r → WritesUpTo s sv m u n r
  from_step n pos (inl ok) = inl ok
  from_step n pos (inr (s1, sv1, e, ed)) =
      full_Writes env s sv m u n s1 sv1 pos (Ready-IsUio ready) e ed

  -- The part of a block at the end.
  tail_Writes :
      u.offset % 512 ≡ 0
      → u.resid < 512
      → WritesUpTo s sv m u u.resid
          (if ltb 0 u.resid then sfs_partialio env s sv m u 0 u.resid else done (0, s, sv, m, u))
  tail_Writes at_block short = elim (ℕ_discrete u.resid 0) [
    | yes z ↦
        let over : ltb 0 u.resid ≡ false = ground arith in
        rw over (
          subst (λ (x : ℕ). WritesUpTo s sv m u x (done (0, s, sv, m, u))) (sym z)
            (none_Writes s sv m u file (Ready-IsUio ready) refl))
    | no nz ↦
        let more : ltb 0 u.resid ≡ true = ground arith in
        let step : Writes s sv m u u.resid (sfs_partialio env s sv m u 0 u.resid) =
          subst (λ (x : ℕ). Writes s sv m u u.resid (sfs_partialio env s sv m u x u.resid)) at_block
            (partial_Writes env s sv file m u u.resid (omega arith) ready.reach ready.fits
              ready.left dir (omega arith) (omega arith)) in
        rw more (from_step u.resid (omega arith) step)
  ]

module _ (env : Env) (s : SfsFs) (sv : SfsVnode) (file : IsFile s sv) (m : ℕ → ℕ) (u : Uio)
    (ready : Ready env u u.resid) (dir : is_read u.rw ≡ false)
    (fits : u.offset + u.resid ≤ 143 * 512) where
  aligned_Writes : u.offset % 512 ≡ 0 → WritesUpTo s sv m u u.resid (io_aligned env s sv m u)
  unfolding io_aligned
  aligned_Writes at_block =
      let x : ℕ = u.resid / 512 * 512 in
      let rest : ℕ = (advance u x).resid in
      let total : x + rest ≡ u.resid = omega (arith, ready.low) in
      let ready' : Ready env u (x + rest) = rw total ready in
      let aligned : (u.offset % 512 == 0) ≡ true = eq→== (u.offset % 512) 0 at_block in
      let blocks =
        blocks_Writes (u.resid / 512) env s sv m u file (Ready-less x rest ready') dir at_block
          (omega arith) in
      elim blocks [
        | inr (j, s1, sv1, e, lt, ed) ↦
            inr (j, s1, sv1, rw (aligned, e) refl, omega (arith, lt, total), ed)
        | inl (s1, sv1, e, ed) ↦
            let short : ltb rest 512 ≡ true = ground (arith, total, ready.low) in
            subst (λ (y : ℕ). WritesUpTo s sv m u y (io_aligned env s sv m u)) total
              (then_Writes env s sv m u s1 sv1 x rest ready' ed (
                rw (aligned, e, short)
                  (tail_Writes env s1 sv1 ed.IsFile' m (advance u x) (Ready-advance x rest ready')
                    dir (omega (arith, total, ready.low)) (omega (arith, total, ready.low))
                    (omega (arith, total, ready.low)))))
      ]

  after_first_Writes :
      (u.resid ≢ 0 → u.offset % 512 ≡ 0)
      → WritesUpTo s sv m u u.resid (after_first env (0, s, sv, m, u))
  unfolding after_first
  after_first_Writes at_block = elim (ℕ_discrete u.resid 0) [
    | yes z ↦ rw (eq→== u.resid 0 z) (
        subst (λ (x : ℕ). WritesUpTo s sv m u x (done (0, s, sv, m, u))) (sym z)
          (none_Writes s sv m u file (Ready-IsUio ready) refl))
    | no more ↦ rw (ne→== u.resid 0 more) (aligned_Writes (at_block more))
  ]

module _ (env : Env) (s : SfsFs) (sv : SfsVnode) (file : IsFile s sv) (m : ℕ → ℕ) (u : Uio)
    (ready : Ready env u u.resid) (dir : is_read u.rw ≡ false)
    (fits : u.offset + u.resid ≤ 143 * 512) where
  -- A write of some bytes that ends within what an inode can map.
  pub body_Writes : 0 < u.resid → WritesUpTo s sv m u u.resid (io_body env s sv m u)
  unfolding io_body after_first
  body_Writes some_bytes = elim (ℕ_discrete (u.offset % 512) 0) [
    | yes z ↦
        let more : (u.resid == 0) ≡ false = ground arith in
        rw (z, more) (aligned_Writes env s sv file m u ready dir fits z)
    | no nz ↦
        let len : ℕ =
          if ltb u.resid (512 - u.offset % 512) then u.resid else 512 - u.offset % 512 in
        let rest : ℕ = (advance u len).resid in
        let small : (0 < len) × (len ≤ u.resid) × (u.offset % 512 + len ≤ 512) = ground arith in
        let total : len + rest ≡ u.resid = omega (arith, ready.low, small) in
        let ready' : Ready env u (len + rest) = rw total ready in
        let first = Ready-less len rest ready' in
        let inside : u.offset < 143 * 512 = omega arith in
        rw (ne→== (u.offset % 512) 0 nz)
          (elim (partial_Writes env s sv file m u len small.0 first.reach first.fits first.left dir
            inside small.2) [
              | inr (s1, sv1, e, ed) ↦
                  full_Writes env s sv m u u.resid s1 sv1 some_bytes (Ready-IsUio ready) (rw e refl)
                    ed
              | inl (s1, sv1, e, ed) ↦
                  let tail =
                    after_first_Writes env s1 sv1 ed.IsFile' m (advance u len)
                      (Ready-advance len rest ready') dir (omega (arith, total, ready.low))
                      (λ more. ground (arith, total, ready.low, more)) in
                  subst
                    (λ (y : ℕ).
                      WritesUpTo s sv m u y
                        (sfs_partialio env s sv m u (u.offset % 512) len >>= after_first env))
                    total (then_Writes env s sv m u s1 sv1 len rest ready' ed (rw e tail))
            ])
  ]
