-- ===== src/Uio.antt =====
-- kern/userprog/uio.c: `uiomove` and `uiomovezeros`. The kernel's end of a transfer is memory of its
-- own, `k`; the other end is `m`, the kernel's memory or the user's. `mk_kuio` and `struct uio` are in
-- Files/Io.
pub mod Moves
pub mod Zeros
use cs350_os.Base.{
  ℕ, zero, suc, ◌+◌, ◌-◌, ◌%◌, ◌^◌, Bool, Option, none, some, Outcome, done, panic, assert, ◌>>=◌,
  ◌>>◌, ltb, leb, ◌==◌, not, ◌&&◌, if◌then◌else◌, true, false,
}
use cs350_os.Base.Errno.{efault}
use cs350_os.User.{copycheck}
use cs350_os.Files.Io.{
  Uio, UioRw, UioSeg, uio_read, uio_write, uio_sysspace, uio_userspace, uio_userispace,
}

-- The running thread's address space, and the memory that is left where a copy to or from user
-- memory faults, or `none` where it does not.
pub record Env : Type 0 where
  pub t_vmspace : ℕ
  pub fault : Option (ℕ → ℕ)

-- `n` bytes from `src` on at `s`, copied to `d` on in `dst`: what `memmove` does between two memories.
abbrev pub blit : (ℕ → ℕ) → ℕ → (ℕ → ℕ) → ℕ → ℕ → ℕ → ℕ
blit dst d src s n a = if leb d a && ltb a (d + n) then src (s + (a - d)) else dst a

-- `copyin` and `copyout`, between two memories: `user` is the address that is checked.
pub user_copy : Env → (ℕ → ℕ) → ℕ → (ℕ → ℕ) → ℕ → ℕ → ℕ → ℕ × (ℕ → ℕ)
user_copy env dst d src s user size =
    let (result, stoplen) = copycheck user size in
    if not (result == 0)
    then (result, dst)
    else if not (stoplen == size)
    then (efault, dst)
    else elim env.fault [ some dst' ↦ (efault, dst') | none ↦ (0, blit dst d src s size) ]

abbrev pub is_sysspace : UioSeg → Bool
is_sysspace uio_sysspace = true
is_sysspace uio_userspace = false
is_sysspace uio_userispace = false

abbrev pub is_read : UioRw → Bool
is_read uio_read = true
is_read uio_write = false

-- What one round moves: the error code and the two memories.
pub move_chunk : Env → (ℕ → ℕ) → ℕ → ℕ → (ℕ → ℕ) → Uio → ℕ × (ℕ → ℕ) × (ℕ → ℕ)
unfolding user_copy
move_chunk env k ptr size m u =
    if is_read u.rw
    then (if is_sysspace u.segflg
        then (0, k, blit m u.base k ptr size)
        else (let (code, m') = user_copy env m u.base k ptr u.base size in (code, k, m')))
    else (if is_sysspace u.segflg
        then (0, blit k ptr m u.base size, m)
        else (let (code, k') = user_copy env k ptr m u.base u.base size in (code, k', m)))

abbrev pub advance : Uio → ℕ → Uio
advance u size = record u {
  base = u.base + size;
  len = u.len - size;
  offset = (u.offset + size) % 2 ^ 32;
  resid = (u.resid + 2 ^ 32 - size) % 2 ^ 32;
}

-- The loop, with `f` rounds left: the error code, the two memories, and the uio.
pub move_rounds : ℕ → Env → (ℕ → ℕ) → ℕ → ℕ → (ℕ → ℕ) → Uio → Outcome (ℕ × (ℕ → ℕ) × (ℕ → ℕ) × Uio)
move_rounds zero env k ptr n m u = panic
move_rounds (suc f) env k ptr n m u =
    let size = if ltb n u.len then n else u.len in
    let (code, k', m') = move_chunk env k ptr size m u in
    let rest = move_rounds f env k' (ptr + size) (n - size) m' (advance u size) in
    if ltb 0 n && ltb 0 u.resid
    then (if size == 0 then panic else if code == 0 then rest else done (code, k', m', u))
    else done (0, k, m, u)

-- Each round moves a byte at least, so `n + 1` rounds are enough.
pub uiomove : Env → (ℕ → ℕ) → ℕ → ℕ → (ℕ → ℕ) → Uio → Outcome (ℕ × (ℕ → ℕ) × (ℕ → ℕ) × Uio)
uiomove env k ptr n m u =
    assert (if is_sysspace u.segflg then u.space == 0 else u.space == env.t_vmspace)
    >> move_rounds (n + 1) env k ptr n m u

-- The loop of `uiomovezeros`, with `f` rounds left.
pub zero_rounds : ℕ → Env → ℕ → (ℕ → ℕ) → Uio → Outcome (ℕ × (ℕ → ℕ) × Uio)
zero_rounds zero env n m u = panic
zero_rounds (suc f) env n m u =
    let amt = if ltb n 16 then n else 16 in
    if n == 0
    then done (0, m, u)
    else (uiomove env (λ a. 0) 0 amt m u >>= λ (code, zeros, m', u').
        let rest = zero_rounds f env (n - amt) m' u' in
        if code == 0 then rest else done (code, m', u'))

pub uiomovezeros : Env → ℕ → (ℕ → ℕ) → Uio → Outcome (ℕ × (ℕ → ℕ) × Uio)
uiomovezeros env n m u = assert (is_read u.rw) >> zero_rounds (n + 1) env n m u
