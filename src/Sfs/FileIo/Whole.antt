-- ===== src/Sfs/FileIo/Whole.antt =====
-- `sfs_read` and `sfs_write`, on a disk that works.
use cs350_os.Sfs.FileIo.WriteLoop.{Ready-less}
use cs350_os.Sfs.FileIo.ReadLoop.{body_Reads}
use cs350_os.Sfs.FileIo.Reads.{Reads}
use cs350_os.Sfs.FileIo.Blocks.{Ready}
use cs350_os.Sfs.Map.Slots.{IsFile, file_byte}
use cs350_os.Files.Io.{Uio}
use cs350_os.Uio.{Env, is_read, advance, blit}
use cs350_os.Sfs.{SfsVnode, SfsFs, sfi_size}
use cs350_os.Base.{
  ℕ, ◌+◌, ◌-◌, ◌*◌, ◌%◌, ◌^◌, ◌<◌, ◌≤◌, ◌≡◌, inl, inr, true, false, done, arith, ltb, leb,
  if◌then◌else◌, refl, Bool-cases, ◌>>=◌,
}
use cs350_os.Sfs.FileIo.{io_body, io_out, sfs_io, sfs_read}

-- What a read leaves of the bytes that were asked for: those before the end of the file.
abbrev pub before_end : SfsVnode → Uio → ℕ
before_end sv u =
    if ltb (sfi_size sv.sv_i) (u.offset + u.resid) then sfi_size sv.sv_i - u.offset else u.resid

module _ (env : Env) (s : SfsFs) (sv : SfsVnode) (m : ℕ → ℕ) where
  -- What a read that has moved all of `v` gives its caller, who asked for `total`.
  read_out :
      (v : Uio) (extra total : ℕ) (s1 : SfsFs) (m1 : ℕ → ℕ)
      → is_read v.rw ≡ true
      → v.resid + extra ≡ total
      → total < 2 ^ 32
      → io_body env s sv m v ≡ done (0, s1, sv, m1, advance v v.resid)
      → (io_body env s sv m v >>= io_out extra)
        ≡ done (0, s1, sv, m1, advance (record v { resid = total }) v.resid)
  unfolding io_out
  read_out v extra total s1 m1 dir sum small ran =
      let left : ((v.resid + 2 ^ 32 - v.resid) % 2 ^ 32 + extra) % 2 ^ 32
          ≡ (total + 2 ^ 32 - v.resid) % 2 ^ 32 =
        omega arith in
      rw (ran, dir, left) refl

  -- A read whose end is known.
  read_up_to :
      (u : Uio) (n extra : ℕ)
      → n + extra ≡ u.resid
      → u.resid < 2 ^ 32
      → is_read u.rw ≡ true
      → Reads s sv m (record u { resid = n }) n (io_body env s sv m (record u { resid = n }))
      → Reads s sv m u n (io_body env s sv m (record u { resid = n }) >>= io_out extra)
  read_up_to u n extra sum small dir (s1, ran, read) = (
    s1,
    read_out (record u { resid = n }) extra u.resid s1 (blit m u.base (file_byte s sv) u.offset n)
        dir sum small ran,
    read,
  )

  module _ (file : IsFile s sv) (u : Uio) (ready : Ready env u u.resid) (some_bytes : 0 < u.resid)
      (dir : is_read u.rw ≡ true) (sized : sfi_size sv.sv_i ≤ 143 * 512) where
    io_whole :
        u.offset + u.resid ≤ sfi_size sv.sv_i
        → Reads s sv m u u.resid (io_body env s sv m u >>= io_out 0)
    io_whole inside =
        read_up_to u u.resid 0 (omega arith) (omega (arith, ready.low)) dir
          (body_Reads env s sv file m u ready dir (omega arith) some_bytes)

    io_part :
        (extra n : ℕ)
        → n + extra ≡ u.resid
        → 0 < n
        → u.offset + n ≡ sfi_size sv.sv_i
        → Reads s sv m u n (io_body env s sv m (record u { resid = n }) >>= io_out extra)
    io_part extra n sum pos end =
        let ready' : Ready env u (n + extra) = rw sum ready in
        let first = Ready-less n extra ready' in
        read_up_to u n extra sum (omega (arith, ready.low)) dir (
          body_Reads env s sv file m (record u { resid = n })
            (record {
              reach = first.reach;
              fits = first.fits;
              left = omega arith;
              low = omega (arith, ready.low);
            })
            dir (omega arith) pos)

    -- Let a file's blocks be in use and all different, and its size be within what an inode can map, and
    -- let a uio ask to read some bytes into memory that can take them, on a disk that works. At or
    -- past the end of the file `sfs_read` returns 0 and moves nothing. Before it, it returns 0 and
    -- moves the bytes of the file from the offset on, up to the end of the file if that comes first,
    -- and zeros where the file has no block; it advances the uio by their number, and changes neither
    -- the blocks of the disk nor the freemap.
    pub sfs_read-Reads :
        (sfi_size sv.sv_i ≤ u.offset → sfs_read env s sv m u ≡ done (0, s, sv, m, u))
        × (u.offset < sfi_size sv.sv_i → Reads s sv m u (before_end sv u) (sfs_read env s sv m u))
    unfolding sfs_read sfs_io
    sfs_read-Reads = (
      λ past.
          let at_end : leb (sfi_size sv.sv_i) u.offset ≡ true = ground arith in
          rw (dir, at_end) refl,
      λ inside.
          let far : leb (sfi_size sv.sv_i) u.offset ≡ false = ground arith in
          elim (Bool-cases (ltb (sfi_size sv.sv_i) (u.offset + u.resid))) [
            | inr e ↦ rw (dir, far, e) (io_whole (ground arith))
            | inl e ↦
                let extra : ℕ = u.offset + u.resid - sfi_size sv.sv_i in
                let some_left : ltb extra u.resid ≡ true = ground arith in
                let n : u.resid - extra ≡ sfi_size sv.sv_i - u.offset = ground arith in
                rw (dir, far, e, some_left, n)
                  (io_part extra (sfi_size sv.sv_i - u.offset) (ground arith) (omega arith)
                    (omega arith))
          ],
    )

pub read_io :
    (env : Env) (s : SfsFs) (sv : SfsVnode) (m : ℕ → ℕ) (u : Uio)
    → is_read u.rw ≡ true
    → sfs_io env s sv m u ≡ sfs_read env s sv m u
unfolding sfs_read
read_io env s sv m u dir = rw dir refl
