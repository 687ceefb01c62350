-- ===== src/Uio/Moves.antt =====
-- What `uiomove` moves.
use cs350_os.Base.{
  ℕ, suc, ◌+◌, ◌-◌, ◌^◌, ◌<◌, ◌≤◌, ◌≡◌, ◌⊎◌, inl, inr, true, false, none, arith, done, ◌==◌,
  if◌then◌else◌, refl, ltb, ◌&&◌, ne→==,
}
use cs350_os.User.{copycheck}
use cs350_os.Files.Io.{Uio}
use cs350_os.Uio.{
  is_read, Env, blit, user_copy, is_sysspace, move_chunk, advance, move_rounds, uiomove,
}

-- The other end of the transfer can take or give `n` bytes: it is kernel memory, or lies below the top
-- of user memory of the running thread, where no copy faults.
abbrev pub Reaches : Env → Uio → ℕ → Type 0
Reaches env u n =
    ((is_sysspace u.segflg ≡ true) × (u.space ≡ 0))
    ⊎ ((is_sysspace u.segflg ≡ false)
        × (u.space ≡ env.t_vmspace)
        × (env.fault ≡ none)
        × (u.base + n ≤ 2 ^ 31))

copycheck_below : (a n : ℕ) → 0 < n → a + n ≤ 2 ^ 31 → copycheck a n ≡ (0, n)
unfolding copycheck
copycheck_below a n pos h = ground arith

user_copy_below :
    (env : Env) (dst : ℕ → ℕ) (d : ℕ) (src : ℕ → ℕ) (s a n : ℕ)
    → 0 < n
    → a + n ≤ 2 ^ 31
    → env.fault ≡ none
    → user_copy env dst d src s a n ≡ (0, blit dst d src s n)
unfolding user_copy
user_copy_below env dst d src s a n pos h calm = rw (copycheck_below a n pos h, calm) (ground arith)

module _ (env : Env) (k : ℕ → ℕ) (ptr n : ℕ) (m : ℕ → ℕ) (u : Uio) (pos : 0 < n)
    (reach : Reaches env u n) where
  pub chunk_read : is_read u.rw ≡ true → move_chunk env k ptr n m u ≡ (0, k, blit m u.base k ptr n)
  unfolding move_chunk
  chunk_read e = elim reach [
    | inl (sys, nul) ↦ rw (e, sys) refl
    | inr (user, cur, calm, low) ↦
        rw (e, user, user_copy_below env m u.base k ptr u.base n pos low calm) refl
  ]

  pub chunk_write :
      is_read u.rw ≡ false → move_chunk env k ptr n m u ≡ (0, blit k ptr m u.base n, m)
  unfolding move_chunk
  chunk_write e = elim reach [
    | inl (sys, nul) ↦ rw (e, sys) refl
    | inr (user, cur, calm, low) ↦
        rw (e, user, user_copy_below env k ptr m u.base u.base n pos low calm) refl
  ]

  space_held : (if is_sysspace u.segflg then u.space == 0 else u.space == env.t_vmspace) ≡ true
  space_held = elim reach [
    | inl (sys, nul) ↦ rw (sys, nul) refl
    | inr (user, cur, calm, low) ↦ ground arith
  ]

  stop :
      (f : ℕ) (k' : ℕ → ℕ) (p : ℕ) (m' : ℕ → ℕ) (u' : Uio)
      → move_rounds (suc f) env k' p 0 m' u' ≡ done (0, k', m', u')
  unfolding move_rounds
  stop f k' p m' u' = refl

  module _ (fits : n ≤ u.len) (left : n ≤ u.resid) where
    one_round :
        {k' m' : ℕ → ℕ}
        → move_chunk env k ptr n m u ≡ (0, k', m')
        → uiomove env k ptr n m u ≡ done (0, k', m', advance u n)
    unfolding uiomove move_rounds
    one_round {k'} {m'} e =
        let fuel : n + 1 ≡ suc (suc (n - 1)) = omega arith in
        let size : (if ltb n u.len then n else u.len) ≡ n = ground arith in
        let go : (ltb 0 n && ltb 0 u.resid) ≡ true = ground arith in
        let none_left : n - n ≡ 0 = omega arith in
        rw (space_held, fuel, size, go, ne→== n 0 (omega arith), e, none_left)
          (stop (n - 1) k' (ptr + n) m' (advance u n))

    -- A read: the bytes at `ptr` reach the uio's memory.
    pub uiomove_read :
        is_read u.rw ≡ true
        → uiomove env k ptr n m u ≡ done (0, k, blit m u.base k ptr n, advance u n)
    uiomove_read e = one_round (chunk_read e)

    pub uiomove_write :
        is_read u.rw ≡ false
        → uiomove env k ptr n m u ≡ done (0, blit k ptr m u.base n, m, advance u n)
    uiomove_write e = one_round (chunk_write e)
