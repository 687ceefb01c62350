-- ===== src/Memory/Compare.antt =====
-- `memcmp` orders regions by their first different byte.
use mathlib.Core.Path.{subst}
use cs350_os.Base.{
  ℕ, ◌+◌, ◌≡◌, ◌<◌, ◌≢◌, ◌⊎◌, inl, arith, ◌^◌, suc, ◌≤◌, Bool-cases, ◌==◌, inr, ==→ne, zero, refl,
}
use cs350_os.Memory.{compare_from, memcmp}

-- Offset `i` is where the regions from `a` and `b` on first differ.
abbrev pub IsDifference : (ℕ → ℕ) → ℕ → ℕ → ℕ → Type 0
IsDifference m a b i = (m (a + i) ≢ m (b + i)) × ((j : ℕ) → j < i → m (a + j) ≡ m (b + j))

-- The result of a comparison of `len` bytes.
abbrev pub Compared : (ℕ → ℕ) → ℕ → ℕ → ℕ → ℕ → Type 0
Compared m a b len r =
    ((r ≡ 0) × ((j : ℕ) → j < len → m (a + j) ≡ m (b + j)))
    ⊎ ((i : ℕ) × (i < len)
        × IsDifference m a b i
        × (m (a + i) < m (b + i) → 2 ^ 31 ≤ r)
        × (m (b + i) < m (a + i) → (0 < r) × (r < 2 ^ 31)))

module _ (m : ℕ → ℕ) (bytes : (x : ℕ) → m x < 256) (a b : ℕ) where
  compare_from-Compared :
      (n i : ℕ)
      → ((j : ℕ) → j < i → m (a + j) ≡ m (b + j))
      → Compared m a b (i + n) (compare_from n i m a b)
  unfolding compare_from
  compare_from-Compared zero i same = inl (refl, λ j h. same j (omega arith))
  compare_from-Compared (suc n) i same = elim (Bool-cases (m (a + i) == m (b + i))) [
    | inl e ↦
        let same' : (j : ℕ) → j < i + 1 → m (a + j) ≡ m (b + j) = λ j h. ground (arith, same j) in
        let rest = compare_from-Compared n (i + 1) same' in
        rw e (subst (λ k. Compared m a b k (compare_from n (i + 1) m a b)) (omega arith) rest)
    | inr e ↦ rw e (
        inr (
          i,
          omega arith,
          (==→ne _ _ e, same),
          λ h. omega (arith, bytes (a + i), bytes (b + i)),
          λ h. (
            omega (arith, bytes (a + i), bytes (b + i)),
            omega (arith, bytes (a + i), bytes (b + i)),
          ),
        ))
  ]

-- `memcmp` of two regions of bytes is 0 if they are equal; otherwise it has, as a signed number, the
-- sign of the difference at the first place where they differ.
pub memcmp-Compared :
    (m : ℕ → ℕ) (a b len : ℕ) → ((x : ℕ) → m x < 256) → Compared m a b len (memcmp m a b len)
unfolding memcmp
memcmp-Compared m a b len bytes =
    subst (λ k. Compared m a b k (compare_from len 0 m a b)) (omega arith)
      (compare_from-Compared m bytes a b len 0 (λ j h. absurd (omega arith)))
