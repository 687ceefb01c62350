-- ===== src/Sfs/Calls/Transfer.antt =====
-- The tail that `read` and `write` share, whatever the operation of the vnode does; which bytes of the buffer
-- are mapped; and what it takes for a descriptor to be of a file of the simple file system.
use native.Mathlib.Decide.{ℕ_discrete}
use cs350_os.Uio.{advance}
use cs350_os.Sfs.FileIo.Blocks.{Ready}
use cs350_os.Sfs.{no_space, SfsVnode, sfi_type, sfi_size}
use cs350_os.Base.{
  inl, ◌==◌, ℕ, update, Bool, ◌≡◌, if◌then◌else◌, ◌+◌, ◌≤◌, true, leb, ◌<◌, some, false, ◌^◌, ◌*◌,
  ltb, suc, arith, ◌-◌, done, refl, zero, ap, ◌∙◌, ◌%◌, panic, ◌≢◌, none, ne→==,
}
use cs350_os.Files.{Files}
use cs350_os.Files.Frame.{InUse}
use cs350_os.Files.Close.{file_at}
use cs350_os.Files.Io.{transfer, VnodeOp, UioRw, mk_kuio, Uio}
use cs350_os.Sfs.Vnodes.{Pool}
use cs350_os.Sfs.Map.Slots.{IsFile}
use cs350_os.Sfs.Calls.{reachable}

-- The file at `f` has moved on by `n` bytes.
abbrev pub moved_on : Files → ℕ → ℕ → Files
moved_on s f n = record s {
  file = update s.file f (record (s.file f) { offset = (s.file f).offset + n });
}

pub reachable-all :
    (mapped : ℕ → Bool) (n a : ℕ)
    → ((x : ℕ) → a ≤ x → x < a + n → mapped x ≡ true)
    → reachable mapped a n ≡ true
unfolding reachable
reachable-all mapped zero a all = refl
reachable-all mapped (suc n) a all =
    let rest = reachable-all mapped n (a + 1) (λ x lo hi. all x (omega arith) (omega arith)) in
    rw (all a (omega arith) (omega arith)) rest

pub reachable-not :
    (mapped : ℕ → Bool) (n a x : ℕ)
    → a ≤ x
    → x < a + n
    → mapped x ≡ false
    → reachable mapped a n ≡ false
unfolding reachable
reachable-not mapped zero a x lo hi bad = absurd (omega arith)
reachable-not mapped (suc n) a x lo hi bad = elim (ℕ_discrete a x) [
  | yes e ↦ let here : mapped a ≡ false = ap mapped e ∙ bad in rw here refl
  | no ne ↦
      let rest = reachable-not mapped n (a + 1) x (omega arith) (omega arith) bad in
      rw rest (ground arith)
]

module _ {S : Type 0} (vop : VnodeOp S) (w w' : S) (s : Files) (f buf nbytes : ℕ) (dir : UioRw)
    (live : s.alive f ≡ true) (low : (s.file f).offset + nbytes < 2 ^ 31) where
  pub transfer_done :
      (n : ℕ)
      → n ≤ nbytes
      → vop w (s.file f).vn (mk_kuio buf nbytes (s.file f).offset dir)
        ≡ done (0, advance (mk_kuio buf nbytes (s.file f).offset dir) n, w')
      → transfer vop w s f buf nbytes dir ≡ done (0, some n, moved_on s f n, w')
  unfolding transfer
  transfer_done n le ran =
      let same : (s.file f).offset % 2 ^ 32 ≡ (s.file f).offset = omega arith in
      let count : (nbytes + 2 ^ 32 - (nbytes + 2 ^ 32 - n) % 2 ^ 32) % 2 ^ 32 ≡ n = omega arith in
      let offset : ((s.file f).offset + n) % 2 ^ 32 % 2 ^ 32 ≡ (s.file f).offset + n =
        omega arith in
      rw (live, same, ran, count, offset) refl

  pub transfer_failed :
      (code : ℕ) (u' : Uio)
      → code ≢ 0
      → vop w (s.file f).vn (mk_kuio buf nbytes (s.file f).offset dir) ≡ done (code, u', w')
      → transfer vop w s f buf nbytes dir ≡ done (code, none, s, w')
  unfolding transfer
  transfer_failed code u' ne ran =
      let same : (s.file f).offset % 2 ^ 32 ≡ (s.file f).offset = omega arith in
      rw (live, same, ran, ne→== code 0 ne) refl

  pub transfer_fault :
      vop w (s.file f).vn (mk_kuio buf nbytes (s.file f).offset dir) ≡ panic
      → transfer vop w s f buf nbytes dir ≡ panic
  unfolding transfer
  transfer_fault ran =
      let same : (s.file f).offset % 2 ^ 32 ≡ (s.file f).offset = omega arith in
      rw (live, same, ran) refl

-- Descriptor `fd` is of the regular file `sv`, in order, and `nbytes` bytes are asked for.
pub record Opened (s : Files) (t fd : ℕ) (p : Pool) (sv : SfsVnode) (nbytes : ℕ) : Type 0 where
  pub used : InUse s t fd
  pub live : s.alive (s.fds t fd) ≡ true
  pub here : p.heap (file_at s t fd).vn ≡ some sv
  pub file : IsFile p.fs sv
  pub regular : sfi_type sv.sv_i ≡ 1
  pub sized : sfi_size sv.sv_i ≤ 143 * 512
  pub some_bytes : 0 < nbytes
  pub low : (file_at s t fd).offset + nbytes < 2 ^ 31

-- The bytes of the file from offset `at` on, of `nbytes`.
abbrev pub bytes_left : SfsVnode → ℕ → ℕ → ℕ
bytes_left sv at nbytes =
    if leb (sfi_size sv.sv_i) at
    then 0
    else if ltb (sfi_size sv.sv_i) (at + nbytes)
    then sfi_size sv.sv_i - at
    else nbytes

module _ {s : Files} {t fd : ℕ} {p : Pool} {sv : SfsVnode} {nbytes : ℕ}
    (o : Opened s t fd p sv nbytes) where
  pub request :
      (buf : ℕ) (dir : UioRw)
      → Ready no_space (mk_kuio buf nbytes (file_at s t fd).offset dir) nbytes
  request buf dir = record {
    reach = inl (refl, refl);
    fits = omega arith;
    left = omega arith;
    low = omega (arith, o.low);
  }

  pub not_dir : (sfi_type sv.sv_i == 2) ≡ false
  not_dir = rw o.regular refl

  pub moves : (n : ℕ) → n ≤ nbytes → nbytes - (nbytes + 2 ^ 32 - n) % 2 ^ 32 ≡ n
  moves n le = let low = o.low in omega arith
