-- ===== src/Strings/Order.antt =====
-- `strcmp`.
use native.Mathlib.Decide.{ℕ_discrete}
use cs350_os.Base.{
  ℕ, ◌<◌, ◌+◌, ◌≡◌, ◌≤◌, ◌≢◌, ◌⊎◌, some, arith, if◌then◌else◌, suc, inl, Bool-cases, inr, ◌==◌,
  ==→ne, false, ne→==, zero,
}
use cs350_os.Strings.{char_lt, differ_from, less, equal, greater, strcmp}
use cs350_os.Strings.Inv.{IsString}

-- The strings at `a` and `b` hold the same characters before offset `i`.
abbrev pub SameBefore : (ℕ → ℕ) → ℕ → ℕ → ℕ → Type 0
SameBefore m a b i = (j : ℕ) → j < i → m (a + j) ≡ m (b + j)

-- Offset `i` is where the strings first differ.
abbrev pub FirstDifference : (ℕ → ℕ) → ℕ → ℕ → ℕ → Type 0
FirstDifference m a b i = (m (a + i) ≢ m (b + i)) × SameBefore m a b i

module _ (m : ℕ → ℕ) (a b k : ℕ) (str : IsString m a k) where
  -- The loop stops at the end of both strings, or where they differ.
  Stops : ℕ → Type 0
  Stops i = ((i ≡ k) × SameBefore m a b (k + 1)) ⊎ ((i ≤ k) × FirstDifference m a b i)

  differ_from-Stops :
      (n i : ℕ)
      → i ≤ k
      → k < i + n
      → SameBefore m a b i
      → (j : ℕ) × (differ_from n m a b i ≡ some j) × Stops j
  unfolding differ_from Stops
  differ_from-Stops zero i lo hi same = absurd (omega arith)
  differ_from-Stops (suc n) i lo hi same = elim (Bool-cases (m (a + i) == m (b + i))) [
    | inr e ↦ (i, ground arith, inr (lo, (==→ne _ _ e, same)))
    | inl e ↦
        let same' : SameBefore m a b (i + 1) = λ j h. ground (arith, same j) in
        elim (ℕ_discrete i k) [
          | yes at_end ↦ (i, ground (arith, str.end), inl (at_end, λ j h. ground (arith, same' j)))
          | no ne ↦
              let more : (m (a + i) == 0) ≡ false = ne→== _ _ (str.char i (omega arith)) in
              let (j, ran, stops) = differ_from-Stops n (i + 1) (omega arith) (omega arith) same' in
              (j, rw (more, e) ran, stops)
        ]
  ]

-- `strcmp` of a string of `k` characters with another string: `equal` if they have the same
-- characters up to the terminator; otherwise `less` or `greater` by the first characters that differ,
-- which are compared as signed. `k + 1` rounds suffice.
pub strcmp_order :
    (k n : ℕ) {m : ℕ → ℕ} (a b : ℕ)
    → IsString m a k
    → ((x : ℕ) → m x < 256)
    → k < n
    → ((strcmp n m a b ≡ some equal) × SameBefore m a b (k + 1))
      ⊎ ((i : ℕ) × (i ≤ k)
          × FirstDifference m a b i
          × (strcmp n m a b ≡ some (if char_lt (m (a + i)) (m (b + i)) then less else greater)))
unfolding strcmp Stops
strcmp_order k n {m} a b str bytes hi =
    let (j, ran, stops) =
      differ_from-Stops m a b k str n 0 (omega arith) (omega arith) (λ j h. absurd (omega arith)) in
    decide j ran stops
  where
    decide :
        (j : ℕ)
        → differ_from n m a b 0 ≡ some j
        → Stops m a b k str j
        → ((strcmp n m a b ≡ some equal) × SameBefore m a b (k + 1))
          ⊎ ((i : ℕ) × (i ≤ k)
              × FirstDifference m a b i
              × (strcmp n m a b ≡ some (if char_lt (m (a + i)) (m (b + i)) then less else greater)))
    decide j ran (inl (e, same)) = inl (rw ran (ground (arith, same j)), same)
    decide j ran (inr (h, (ne, same))) =
        inr (j, h, (ne, same), rw ran (ground (arith, ne, bytes (a + j), bytes (b + j))))
