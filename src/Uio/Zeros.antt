-- ===== src/Uio/Zeros.antt =====
-- What `uiomovezeros` moves.
use native.Mathlib.Decide.{ℕ_discrete}
use cs350_os.Base.{
  ℕ, zero, suc, ◌+◌, ◌-◌, ◌^◌, ◌<◌, ◌≤◌, ◌≡◌, inl, inr, true, arith, done, if◌then◌else◌, refl, ltb,
  ne→==,
}
use mathlib.Core.Path.{fun_ext}
use cs350_os.Files.Io.{Uio}
use cs350_os.Uio.{is_read, Env, blit, advance, zero_rounds, uiomovezeros, uiomove}
use cs350_os.Uio.Moves.{Reaches, uiomove_read}

-- The fields of a uio that counts in 32 bits.
abbrev pub IsUio : Uio → Type 0
IsUio u = (u.offset < 2 ^ 32) × (u.resid < 2 ^ 32)

pub blit_none : (m : ℕ → ℕ) (b : ℕ) (src : ℕ → ℕ) (s : ℕ) → blit m b src s 0 ≡ m
blit_none m b src s = fun_ext (λ a. ground arith)

pub blit_zeros :
    (m : ℕ → ℕ) (b x y : ℕ)
    → blit (blit m b (λ a. 0) 0 x) (b + x) (λ a. 0) 0 y ≡ blit m b (λ a. 0) 0 (x + y)
blit_zeros m b x y = fun_ext (λ a. ground arith)

pub advance_none : (u : Uio) → IsUio u → advance u 0 ≡ u
advance_none u h = ground arith

pub advance_add :
    (u : Uio) (x y : ℕ) → x + y ≤ u.resid → IsUio u → advance (advance u x) y ≡ advance u (x + y)
advance_add u x y h small = ground arith

pub Reaches-advance :
    (env : Env) (u : Uio) (x y : ℕ) → Reaches env u (x + y) → Reaches env (advance u x) y
Reaches-advance env u x y (inl h) = inl h
Reaches-advance env u x y (inr (user, cur, calm, low)) = inr (user, cur, calm, omega arith)

pub Reaches-less : (env : Env) (u : Uio) (x y : ℕ) → Reaches env u (x + y) → Reaches env u x
Reaches-less env u x y (inl h) = inl h
Reaches-less env u x y (inr (user, cur, calm, low)) = inr (user, cur, calm, omega arith)

zero_rounds_lem :
    (f : ℕ) (env : Env) (n : ℕ) (m : ℕ → ℕ) (u : Uio)
    → n < f
    → n ≤ u.len
    → n ≤ u.resid
    → IsUio u
    → Reaches env u n
    → is_read u.rw ≡ true
    → zero_rounds f env n m u ≡ done (0, blit m u.base (λ a. 0) 0 n, advance u n)
unfolding zero_rounds
zero_rounds_lem zero env n m u fuel fits left small reach dir = absurd (omega arith)
zero_rounds_lem (suc f) env n m u fuel fits left small reach dir = elim (ℕ_discrete n 0) [
  | yes e ↦ rw (e, blit_none m u.base (λ a. 0) 0, advance_none u small) refl
  | no ne ↦
      let amt : ℕ = if ltb n 16 then n else 16 in
      let part : amt + (n - amt) ≡ n = ground arith in
      let reach' : Reaches env u (amt + (n - amt)) = rw part reach in
      let moved : uiomove env (λ a. 0) 0 amt m u
          ≡ done (0, (λ a. 0), blit m u.base (λ a. 0) 0 amt, advance u amt) =
        uiomove_read env (λ a. 0) 0 amt m u (ground arith) (Reaches-less env u amt (n - amt) reach')
          (ground arith) (ground arith) dir in
      let rest =
        zero_rounds_lem f env (n - amt) (blit m u.base (λ a. 0) 0 amt) (advance u amt)
          (ground arith) (ground arith) (ground arith) (ground arith)
          (Reaches-advance env u amt (n - amt) reach') dir in
      rw
        (
          ne→== n 0 ne,
          moved,
          rest,
          blit_zeros m u.base amt (n - amt),
          advance_add u amt (n - amt) (ground arith) small,
          part,
        )
        refl
]

-- A read of `n` zeros.
pub uiomovezeros_lem :
    (env : Env) (n : ℕ) (m : ℕ → ℕ) (u : Uio)
    → n ≤ u.len
    → n ≤ u.resid
    → IsUio u
    → Reaches env u n
    → is_read u.rw ≡ true
    → uiomovezeros env n m u ≡ done (0, blit m u.base (λ a. 0) 0 n, advance u n)
unfolding uiomovezeros
uiomovezeros_lem env n m u fits left small reach dir =
    rw dir (zero_rounds_lem (n + 1) env n m u (omega arith) fits left small reach dir)
