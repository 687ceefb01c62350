-- ===== src/Sfs/Calls/Writes.antt =====
-- What `write` does to a file of the simple file system, on a disk that works.
use cs350_os.Uio.{advance}
use cs350_os.Sfs.FileIo.{sfs_write}
use cs350_os.Base.Errno.{enospc}
use cs350_os.Sfs.{SfsVnode, no_space, SfsFs}
use cs350_os.Base.{
  ◌⊎◌, ℕ, Bool, ◌≡◌, ◌+◌, ◌≤◌, true, leb, ◌<◌, some, false, ◌*◌, inl, arith, done, refl, panic, ◌≢◌,
  Bool-cases, none, ne→==, inr,
}
use cs350_os.Files.{Files}
use cs350_os.Files.Close.{file_at}
use cs350_os.Files.Io.{CallResult, o_rdonly, write, transfer, mk_kuio, uio_write}
use cs350_os.Sfs.Vnodes.{Pool, put_vnode, with_fs}
use cs350_os.Sfs.FileIo.Written.{Wrote, sfs_write-Written}
use cs350_os.Sfs.Calls.{vop_write, reachable}
use cs350_os.Sfs.Calls.Transfer.{
  reachable-all, reachable-not, transfer_done, transfer_failed, transfer_fault, moved_on, Opened,
  request, not_dir, moves,
}

module _ (mapped : ℕ → Bool) (s : Files) (t fd : ℕ) (p : Pool) (sv : SfsVnode) (m : ℕ → ℕ)
    (buf nbytes : ℕ) (o : Opened s t fd p sv nbytes) where
  abbrev at : ℕ
  at = (file_at s t fd).offset

  abbrev v : ℕ
  v = (file_at s t fd).vn

  abbrev after : (s' : SfsFs) (sv' : SfsVnode) (m' : ℕ → ℕ) → Pool × (ℕ → ℕ)
  after s' sv' m' = (put_vnode (with_fs p s') v sv', m')

  vop_wrote :
      (code j : ℕ) (s' : SfsFs) (sv' : SfsVnode)
      → j ≤ nbytes
      → sfs_write no_space p.fs sv m (mk_kuio buf nbytes at uio_write)
        ≡ done (code, s', sv', m, advance (mk_kuio buf nbytes at uio_write) j)
      → (reachable mapped buf j ≡ true
          → vop_write mapped (p, m) v (mk_kuio buf nbytes at uio_write)
            ≡ done (code, advance (mk_kuio buf nbytes at uio_write) j, after s' sv' m))
        × (reachable mapped buf j ≡ false
            → vop_write mapped (p, m) v (mk_kuio buf nbytes at uio_write) ≡ panic)
  unfolding vop_write
  vop_wrote code j s' sv' le ran =
      let count = moves o j le in
      (
        λ all. rw (o.here, not_dir o, ran, count, all) refl,
        λ not_all. rw (o.here, not_dir o, ran, count, not_all) refl,
      )

  -- A `write` that was done: all of it, with the offset moved on, or a part of it, and ENOSPC.
  abbrev pub AllWritten : CallResult (Pool × (ℕ → ℕ)) → Type 0
  AllWritten r =
      (s' : SfsFs) × (sv' : SfsVnode) × (r
        ≡ done (0, some nbytes, moved_on s (s.fds t fd) nbytes, after s' sv' m))
      × Wrote p.fs sv m (mk_kuio buf nbytes at uio_write) nbytes s' sv'

  abbrev pub PartWritten : CallResult (Pool × (ℕ → ℕ)) → Type 0
  PartWritten r =
      (j : ℕ) × (s' : SfsFs) × (sv' : SfsVnode) × (r ≡ done (enospc, none, s, after s' sv' m))
      × (j < nbytes)
      × Wrote p.fs sv m (mk_kuio buf nbytes at uio_write) j s' sv'

  -- Let descriptor `fd` be of a regular file whose blocks are in use and all different, and whose size is within
  -- what an inode can map, on a disk that works; let the file be open for writing, the buffer be none of the
  -- three addresses that `write` refuses, and some bytes be asked for, which end within what an inode can
  -- map. If the buffer is mapped, `write` returns 0, sets `*retval` to the number that was asked for, has
  -- put the buffer's bytes into the file at the offset, and moves the offset on past them; or it
  -- returns ENOSPC, has put a part of them there, and sets neither `*retval` nor the offset. Either way the
  -- file's other bytes and every block in use that is not the file's are as before, the size is the larger
  -- of the old one and the end of what was written, and memory and the other open files do not change. If a
  -- byte of the buffer is not mapped, the kernel faults, or the second of these is the outcome.
  pub write_effects :
      (file_at s t fd).flag ≢ o_rdonly
      → buf ≢ 0
      → buf ≢ 1073741824
      → buf ≢ 2147483648
      → at + nbytes ≤ 143 * 512
      → (((x : ℕ) → buf ≤ x → x < buf + nbytes → mapped x ≡ true)
          → AllWritten (write (vop_write mapped) (p, m) s t fd buf nbytes)
            ⊎ PartWritten (write (vop_write mapped) (p, m) s t fd buf nbytes))
        × ((x : ℕ)
            → buf ≤ x
            → x < buf + nbytes
            → mapped x ≡ false
            → (write (vop_write mapped) (p, m) s t fd buf nbytes ≡ panic)
              ⊎ PartWritten (write (vop_write mapped) (p, m) s t fd buf nbytes))
  unfolding write
  write_effects flag b1 b2 b3 fits =
      let used = o.used in
      let live = o.live in
      let vop = vop_write mapped in
      let f : ℕ = s.fds t fd in
      let out : leb 20 fd ≡ false = ground (arith, used.0) in
      let to_transfer : (r : CallResult (Pool × (ℕ → ℕ)))
          → transfer vop (p, m) s f buf nbytes uio_write ≡ r
          → write vop (p, m) s t fd buf nbytes ≡ r =
        λ r e.
          rw
            (
              out,
              ne→== (s.fds t fd) 0 used.1,
              ne→== buf 0 b1,
              ne→== buf 1073741824 b2,
              ne→== buf 2147483648 b3,
              live,
              ne→== (file_at s t fd).flag o_rdonly flag,
            )
            e in
      let part : (j : ℕ) (s' : SfsFs) (sv' : SfsVnode)
          → j < nbytes
          → sfs_write no_space p.fs sv m (mk_kuio buf nbytes at uio_write)
            ≡ done (enospc, s', sv', m, advance (mk_kuio buf nbytes at uio_write) j)
          → Wrote p.fs sv m (mk_kuio buf nbytes at uio_write) j s' sv'
          → reachable mapped buf j ≡ true
          → PartWritten (write vop (p, m) s t fd buf nbytes) =
        λ j s' sv' lt ran wrote all. (
          j,
          s',
          sv',
          to_transfer _ (
              transfer_failed vop (p, m) (after s' sv' m) s f buf nbytes uio_write live o.low enospc
                (advance (mk_kuio buf nbytes at uio_write) j) (omega arith)
                ((vop_wrote enospc j s' sv' (omega (arith, lt)) ran).0 all)),
          lt,
          wrote,
        ) in
      let written =
        sfs_write-Written no_space p.fs sv o.file m (mk_kuio buf nbytes at uio_write)
          (request o buf uio_write) o.some_bytes refl fits in
      (
        λ all. elim written [
          | inl (s', sv', ran, wrote) ↦ inl (
            s',
            sv',
            to_transfer _ (
                transfer_done vop (p, m) (after s' sv' m) s f buf nbytes uio_write live o.low nbytes
                  (omega arith)
                  ((vop_wrote 0 nbytes s' sv' (omega arith) ran).0
                    (reachable-all mapped nbytes buf all))),
            wrote,
          )
          | inr (j, s', sv', ran, lt, wrote) ↦ inr (
              part j s' sv' lt ran wrote
                (reachable-all mapped j buf (λ x lo hi. all x lo (omega (arith, lt, hi)))))
        ],
        λ x lo hi bad. elim written [
          | inl (s', sv', ran, wrote) ↦ inl (
              to_transfer _ (
                transfer_fault vop (p, m) (p, m) s f buf nbytes uio_write live o.low
                  ((vop_wrote 0 nbytes s' sv' (omega arith) ran).1
                    (reachable-not mapped nbytes buf x lo hi bad))))
          | inr (j, s', sv', ran, lt, wrote) ↦ elim (Bool-cases (reachable mapped buf j)) [
            | inl e ↦ inr (part j s' sv' lt ran wrote e)
            | inr e ↦ inl (
                to_transfer _ (
                  transfer_fault vop (p, m) (p, m) s f buf nbytes uio_write live o.low
                    ((vop_wrote enospc j s' sv' (omega (arith, lt)) ran).1 e)))
          ]
        ],
      )
