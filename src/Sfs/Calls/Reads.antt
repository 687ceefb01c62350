-- ===== src/Sfs/Calls/Reads.antt =====
-- What `read` does to a file of the simple file system, on a disk that works.
use cs350_os.Uio.Zeros.{blit_none, advance_none}
use cs350_os.Uio.{blit, advance}
use cs350_os.Sfs.FileIo.{sfs_read}
use cs350_os.Sfs.{SfsVnode, no_space, SfsFs, sfi_size}
use cs350_os.Base.{
  ℕ, Bool, ◌≡◌, ◌+◌, ◌≤◌, true, leb, ◌<◌, some, false, inl, arith, done, refl, panic, ◌≢◌,
  Bool-cases, ne→==, inr,
}
use cs350_os.Files.{Files}
use cs350_os.Files.Close.{file_at}
use cs350_os.Files.Io.{CallResult, o_wronly, read, transfer, mk_kuio, uio_read, Uio}
use cs350_os.Sfs.Vnodes.{Pool, put_vnode, with_fs}
use cs350_os.Sfs.Map.Slots.{file_byte}
use cs350_os.Sfs.Map.Look.{Read}
use cs350_os.Sfs.FileIo.Whole.{sfs_read-Reads}
use cs350_os.Sfs.Calls.{vop_read, reachable}
use cs350_os.Sfs.Calls.Transfer.{
  reachable-all, reachable-not, transfer_done, transfer_fault, moved_on, Opened, bytes_left,
  request, not_dir, moves,
}

module _ (mapped : ℕ → Bool) (s : Files) (t fd : ℕ) (p : Pool) (sv : SfsVnode) (m : ℕ → ℕ)
    (buf nbytes : ℕ) (o : Opened s t fd p sv nbytes) where
  abbrev at : ℕ
  at = (file_at s t fd).offset

  abbrev v : ℕ
  v = (file_at s t fd).vn

  -- `VOP_READ`, up to the bytes of the buffer.
  sfs_reads :
      (s' : SfsFs) × (sfs_read no_space p.fs sv m (mk_kuio buf nbytes at uio_read)
        ≡ done (
          0,
          s',
          sv,
          blit m buf (file_byte p.fs sv) at (bytes_left sv at nbytes),
          advance (mk_kuio buf nbytes at uio_read) (bytes_left sv at nbytes),
        ))
      × Read p.fs sv s'
  sfs_reads =
      let u : Uio = mk_kuio buf nbytes at uio_read in
      let (past, before) =
        sfs_read-Reads no_space p.fs sv m o.file u (request o buf uio_read) o.some_bytes refl
          o.sized in
      elim (Bool-cases (leb (sfi_size sv.sv_i) at)) [
        | inl e ↦ (
          p.fs,
          rw
              (
                e,
                blit_none m buf (file_byte p.fs sv) at,
                advance_none u (omega (arith, o.low), omega (arith, o.low)),
              )
              (past (ground (arith, e))),
          (o.file, refl, refl, refl),
        )
        | inr e ↦ let (s', ran, read) = before (ground (arith, e)) in (s', rw e ran, read)
      ]

  left_le : bytes_left sv at nbytes ≤ nbytes
  left_le = ground arith

  abbrev after : (s' : SfsFs) (sv' : SfsVnode) (m' : ℕ → ℕ) → Pool × (ℕ → ℕ)
  after s' sv' m' = (put_vnode (with_fs p s') v sv', m')

  vop_reads :
      (s' : SfsFs) × Read p.fs sv s'
      × (reachable mapped buf (bytes_left sv at nbytes) ≡ true
          → vop_read mapped (p, m) v (mk_kuio buf nbytes at uio_read)
            ≡ done (
              0,
              advance (mk_kuio buf nbytes at uio_read) (bytes_left sv at nbytes),
              after s' sv (blit m buf (file_byte p.fs sv) at (bytes_left sv at nbytes)),
            ))
      × (reachable mapped buf (bytes_left sv at nbytes) ≡ false
          → vop_read mapped (p, m) v (mk_kuio buf nbytes at uio_read) ≡ panic)
  unfolding vop_read
  vop_reads =
      let (s', ran, read) = sfs_reads in
      let count = moves o (bytes_left sv at nbytes) left_le in
      (
        s',
        read,
        λ yes_all. rw (o.here, not_dir o, ran, count, yes_all) refl,
        λ not_all. rw (o.here, not_dir o, ran, count, not_all) refl,
      )

  -- Let descriptor `fd` be of a regular file whose blocks are in use and all different, and whose size is within
  -- what an inode can map, on a disk that works; let the file be open for reading, the buffer not be NULL, and some
  -- bytes be asked for, with the offset and them below 2^31. If every byte of the buffer that the file has a
  -- byte for is mapped, `read` returns 0, sets `*retval` to their number, has put the file's bytes from
  -- the offset on there, and moves the offset on by as many; no other memory, no other open file, and neither
  -- the blocks of the disk nor the freemap change. If one of them is not mapped, the kernel faults.
  pub read_effects :
      (file_at s t fd).flag ≢ o_wronly
      → buf ≢ 0
      → (((x : ℕ) → buf ≤ x → x < buf + bytes_left sv at nbytes → mapped x ≡ true)
          → (s' : SfsFs) × (read (vop_read mapped) (p, m) s t fd buf nbytes
              ≡ done (
                0,
                some (bytes_left sv at nbytes),
                moved_on s (s.fds t fd) (bytes_left sv at nbytes),
                after s' sv (blit m buf (file_byte p.fs sv) at (bytes_left sv at nbytes)),
              ))
            × Read p.fs sv s')
        × ((x : ℕ)
            → buf ≤ x
            → x < buf + bytes_left sv at nbytes
            → mapped x ≡ false
            → read (vop_read mapped) (p, m) s t fd buf nbytes ≡ panic)
  unfolding read
  read_effects flag not_null =
      let (s', read_ok, moved, fault) = vop_reads in
      let n : ℕ = bytes_left sv at nbytes in
      let used = o.used in
      let live = o.live in
      let out : leb 20 fd ≡ false = ground (arith, used.0) in
      let to_transfer : (r : CallResult (Pool × (ℕ → ℕ)))
          → transfer (vop_read mapped) (p, m) s (s.fds t fd) buf nbytes uio_read ≡ r
          → read (vop_read mapped) (p, m) s t fd buf nbytes ≡ r =
        λ r e.
          rw
            (
              out,
              ne→== buf 0 not_null,
              ne→== (s.fds t fd) 0 used.1,
              live,
              ne→== (file_at s t fd).flag o_wronly flag,
            )
            e in
      (
        λ all. (
          s',
          to_transfer _ (
              transfer_done (vop_read mapped) (p, m)
                (after s' sv (blit m buf (file_byte p.fs sv) at n)) s (s.fds t fd) buf nbytes
                uio_read live o.low n left_le (moved (reachable-all mapped n buf all))),
          read_ok,
        ),
        λ x lo hi bad. to_transfer _ (
            transfer_fault (vop_read mapped) (p, m) (p, m) s (s.fds t fd) buf nbytes uio_read live
              o.low (fault (reachable-not mapped n buf x lo hi bad))),
      )
