-- ===== src/Disk.antt =====
-- kern/dev/lamebus/lhd.c: the disk. The card is the environment: `status` says how each operation
-- that is started ends. `lhd_irq` reports an operation only in these three states, and `lhd_io` waits
-- for it; the semaphore `lh_clear` keeps other threads out in between. An operation that fails moves
-- nothing between the card's buffer and the sector. Offsets are not negative.
pub mod Sector
use cs350_os.Base.{
  ℕ, zero, suc, ◌+◌, ◌-◌, ◌%◌, ◌/◌, ◌^◌, Bool, true, false, Outcome, done, panic, assert, ◌>>=◌,
  ◌>>◌, ltb, leb, ◌==◌, not, ◌||◌, if◌then◌else◌, update,
}
use cs350_os.Base.Errno.{einval, eio}
use cs350_os.Files.Io.{Uio, uio_read, uio_write}
use cs350_os.Uio.{is_read, Env, uiomove}

pub data Status : Type 0 where
  lhd_ok : Status
  lhd_invsect : Status
  lhd_media : Status

-- The disk device and its card. A sector is its bytes, of which the first 512 matter.
pub record Disk : Type 0 where
  pub d_blocks : ℕ
  pub sector : ℕ → ℕ → ℕ
  pub lh_buf : ℕ → ℕ
  pub status : ℕ → Status
  pub started : ℕ

pub lhd_code_to_errno : Status → ℕ
lhd_code_to_errno lhd_ok = 0
lhd_code_to_errno lhd_invsect = einval
lhd_code_to_errno lhd_media = eio

abbrev pub is_ok : Status → Bool
is_ok lhd_ok = true
is_ok lhd_invsect = false
is_ok lhd_media = false

-- One operation of the card, from the start to the interrupt: `lh_result`, and the disk.
pub operate : Disk → Bool → ℕ → ℕ × Disk
unfolding lhd_code_to_errno
operate d writing sect =
    let d' : Disk = record d { started = d.started + 1 } in
    (
      lhd_code_to_errno (d.status d.started),
      if is_ok (d.status d.started)
          then (if writing
              then record d' { sector = update d.sector sect d.lh_buf }
              else record d' { lh_buf = d.sector sect })
          else d',
    )

-- The body of the loop of `lhd_io`.
pub lhd_sector : Env → Disk → ℕ → (ℕ → ℕ) → Uio → Outcome (ℕ × (ℕ → ℕ) × Uio × Disk)
unfolding operate
lhd_sector env d sect m u =
    if is_read u.rw
    then (let (result, d') = operate d false sect in
        if result == 0
        then (uiomove env d'.lh_buf 0 512 m u >>= λ (code, buf, m', u').
            done (code, m', u', record d' { lh_buf = buf }))
        else done (result, m, u, d'))
    else (uiomove env d.lh_buf 0 512 m u >>= λ (code, buf, m', u').
        let (result, d') = operate (record d { lh_buf = buf }) true sect in
        if code == 0
        then done (result, m', u', d')
        else done (code, m', u', record d { lh_buf = buf }))

-- The loop, with `n` sectors left.
pub lhd_sectors : ℕ → Env → Disk → ℕ → (ℕ → ℕ) → Uio → Outcome (ℕ × (ℕ → ℕ) × Uio × Disk)
lhd_sectors zero env d sect m u = done (0, m, u, d)
lhd_sectors (suc n) env d sect m u = lhd_sector env d sect m u >>= λ (code, m', u', d').
    let rest = lhd_sectors n env d' (sect + 1) m' u' in
    if code == 0 then rest else done (code, m', u', d')

pub lhd_io : Env → Disk → (ℕ → ℕ) → Uio → Outcome (ℕ × (ℕ → ℕ) × Uio × Disk)
lhd_io env d m u =
    if not (u.offset % 512 == 0) || not (u.resid % 512 == 0)
    then done (einval, m, u, d)
    else if ltb d.d_blocks ((u.offset / 512 + u.resid / 512) % 2 ^ 32)
    then done (einval, m, u, d)
    else lhd_sectors (u.resid / 512) env d (u.offset / 512) m u
