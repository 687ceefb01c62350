-- ===== src/Sfs/FileIo/Back.antt =====
-- What is written to a file is read back.
use cs350_os.Base.Errno.{enospc}
use cs350_os.Sfs.FileIo.Steps.{put}
use cs350_os.Sfs.FileIo.Whole.{before_end, sfs_read-Reads}
use cs350_os.Sfs.FileIo.Reads.{Reads}
use mathlib.Core.Path.{fun_ext, subst}
use cs350_os.Sfs.FileIo.Blocks.{Ready}
use cs350_os.Sfs.Map.Slots.{file_byte, IsFile}
use cs350_os.Sfs.FileIo.Written.{Wrote, sfs_write-Written}
use cs350_os.Sfs.FileIo.{IoResult, sfs_read, sfs_write}
use cs350_os.Files.Io.{Uio}
use cs350_os.Uio.{Env, blit, is_read, advance}
use cs350_os.Sfs.{SfsFs, SfsVnode, sfi_size}
use cs350_os.Base.{
  ℕ, ◌+◌, ◌-◌, ◌*◌, ◌<◌, ◌≤◌, ◌≡◌, true, done, arith, ltb, leb, refl, inl, Bool-cases, sym, ◌&&◌,
  ◌∙◌, inr, ap, false, ◌>>=◌, ◌⊎◌, if◌then◌else◌, ◌==◌,
}

-- The bytes of a file that have been written, in the memory that a read fills.
same_bytes :
    (s : SfsFs) (sv : SfsVnode) (m : ℕ → ℕ) (u : Uio) (s' : SfsFs) (sv' : SfsVnode) (m' : ℕ → ℕ)
    (base : ℕ)
    → Wrote s sv m u u.resid s' sv'
    → u.offset + u.resid ≤ 143 * 512
    → blit m' base (file_byte s' sv') u.offset u.resid ≡ blit m' base m u.base u.resid
same_bytes s sv m u s' sv' m' base wrote fits = fun_ext (λ a.
    elim (Bool-cases (leb base a && ltb a (base + u.resid))) [
      | inr e ↦ rw e refl
      | inl e ↦
          let inside : u.offset + (a - base) < 143 * 512 = ground arith in
          let put_there : put s sv m u u.resid (u.offset + (a - base)) ≡ m (u.base + (a - base)) =
            let off : u.offset + (a - base) - u.offset ≡ a - base = omega arith in
            rw off (ground arith) in
          rw e (wrote.bytes (u.offset + (a - base)) inside ∙ put_there)
    ])

module _ (env : Env) (s : SfsFs) (sv : SfsVnode) (m : ℕ → ℕ) (u : Uio) (s' : SfsFs) (sv' : SfsVnode)
    (wrote : Wrote s sv m u u.resid s' sv') (some_bytes : 0 < u.resid)
    (fits : u.offset + u.resid ≤ 143 * 512) (sized : sfi_size sv.sv_i ≤ 143 * 512) where
  read_there :
      (m' : ℕ → ℕ) (v : Uio)
      → Ready env v v.resid
      → is_read v.rw ≡ true
      → v.offset ≡ u.offset
      → v.resid ≡ u.resid
      → Reads s' sv' m' v u.resid (sfs_read env s' sv' m' v)
  read_there m' v ready dir at many =
      let size : u.offset + u.resid ≤ sfi_size sv'.sv_i = ground (arith, wrote.size) in
      let small : sfi_size sv'.sv_i ≤ 143 * 512 = ground (arith, wrote.size) in
      let n : before_end sv' v ≡ u.resid = ground (arith, size) in
      subst (λ (x : ℕ). Reads s' sv' m' v x (sfs_read env s' sv' m' v)) n
        ((sfs_read-Reads env s' sv' m' wrote.IsFile' v ready (omega arith) dir small).1
          (omega arith))

-- A write, and a read if the write returned 0.
abbrev pub write_then_read : Env → SfsFs → SfsVnode → (ℕ → ℕ) → Uio → (ℕ → ℕ) → Uio → IoResult
write_then_read env s sv m u m' v = sfs_write env s sv m u >>= λ (code, s', sv', m1, u').
    if code == 0 then sfs_read env s' sv' m' v else done (code, s', sv', m1, u')

-- Let a file's blocks be in use and all different, and its size be within what an inode can map, on a
-- disk that works. If `sfs_write` of some bytes that end within that returns 0, then `sfs_read` of as
-- many bytes at the same offset returns 0 too, fills its memory with exactly the bytes that were
-- written, and changes nothing else there; if it does not return 0, it returns ENOSPC.
pub read-write :
    (env : Env) (s : SfsFs) (sv : SfsVnode)
    → IsFile s sv
    → sfi_size sv.sv_i ≤ 143 * 512
    → (m : ℕ → ℕ) (u : Uio) → Ready env u u.resid
    → 0 < u.resid
    → is_read u.rw ≡ false
    → u.offset + u.resid ≤ 143 * 512
    → (m' : ℕ → ℕ) (v : Uio) → Ready env v v.resid
    → is_read v.rw ≡ true
    → v.offset ≡ u.offset
    → v.resid ≡ u.resid
    → ((s2 : SfsFs) × (sv2 : SfsVnode) × (write_then_read env s sv m u m' v
          ≡ done (0, s2, sv2, blit m' v.base m u.base u.resid, advance v u.resid)))
      ⊎ ((s2 : SfsFs) × (sv2 : SfsVnode) × (u2 : Uio) × (write_then_read env s sv m u m' v
            ≡ done (enospc, s2, sv2, m, u2)))
read-write env s sv file sized m u ready some_bytes dir fits m' v ready' dir' at many =
    elim (sfs_write-Written env s sv file m u ready some_bytes dir fits) [
      | inr (j, s', sv', ran, lt, wrote) ↦ inr (s', sv', advance u j, rw ran refl)
      | inl (s', sv', ran, wrote) ↦
          let (s2, e, read) =
            read_there env s sv m u s' sv' wrote some_bytes fits sized m' v ready' dir' at many in
          let bytes : blit m' v.base (file_byte s' sv') v.offset u.resid
              ≡ blit m' v.base m u.base u.resid =
            subst
              (λ (x : ℕ).
                blit m' v.base (file_byte s' sv') x u.resid ≡ blit m' v.base m u.base u.resid)
              (sym at) (same_bytes s sv m u s' sv' m' v.base wrote fits) in
          inl (s2, sv', rw ran (e ∙ ap (λ x. done (0, s2, sv', x, advance v u.resid)) bytes))
    ]
