-- ===== src/Strings/Find.antt =====
-- `strchr` and `strrchr`.
use mathlib.Core.Path.{subst}
use cs350_os.Base.{
  ℕ, ◌+◌, ◌≡◌, ◌<◌, inl, ◌≤◌, ◌⊎◌, arith, some, ◌-◌, suc, refl, Bool-cases, inr, ◌==◌, false, ==→eq,
  ne→==, zero, ◌≢◌, ==→ne,
}
use cs350_os.Strings.{widen, strchr, last_before, strrchr}
use cs350_os.Strings.Inv.{IsString, IsString-next}
use cs350_os.Strings.Length.{strlen-IsString}

-- Offset `j` of the string at `s` holds `ch`.
abbrev pub Holds : (ℕ → ℕ) → ℕ → ℕ → ℕ → Type 0
Holds m s ch j = widen (m (s + j)) ≡ ch

-- `r` points to the first of the offsets 0 to `k` that holds `ch`, or is NULL if none does.
abbrev pub FirstAt : (ℕ → ℕ) → ℕ → ℕ → ℕ → ℕ → Type 0
FirstAt m s ch k r =
    ((r ≡ 0) × ((j : ℕ) → j ≤ k → ¬ Holds m s ch j))
    ⊎ ((j : ℕ) × (r ≡ s + j) × (j ≤ k) × Holds m s ch j × ((i : ℕ) → i < j → ¬ Holds m s ch i))

-- `r` points to the last of the offsets below `k` that holds `ch`, or is NULL if none does.
abbrev pub LastAt : (ℕ → ℕ) → ℕ → ℕ → ℕ → ℕ → Type 0
LastAt m s ch k r =
    ((r ≡ 0) × ((j : ℕ) → j < k → ¬ Holds m s ch j))
    ⊎ ((j : ℕ) × (r ≡ s + j)
        × (j < k)
        × Holds m s ch j
        × ((i : ℕ) → j < i → i < k → ¬ Holds m s ch i))

module _ (m : ℕ → ℕ) (ch : ℕ) where
  FirstAt-later :
      (s k r : ℕ) → ¬ Holds m s ch 0 → FirstAt m (s + 1) ch k r → FirstAt m s ch (k + 1) r
  FirstAt-later s k r no_head (inl (e, absent)) =
      inl (e, λ j h. ground (arith, no_head, absent (j - 1)))
  FirstAt-later s k r no_head (inr (j, e, h, here, before)) = inr (
    j + 1,
    omega arith,
    omega arith,
    ground (arith, here),
    λ i lt. ground (arith, no_head, before (i - 1)),
  )

  first_here : (s k : ℕ) → widen (m s) ≡ ch → FirstAt m s ch k s
  first_here s k e =
      inr (0, omega arith, omega arith, ground (arith, e), λ i h. absurd (omega arith))

  no_head : (s : ℕ) → widen (m s) ≢ ch → ¬ Holds m s ch 0
  no_head s ne e = ground (arith, ne, e)

  -- `strchr` of a string of `k` characters returns a pointer to the first character that is `ch`, the
  -- terminator included, or NULL if there is none. `k + 1` rounds suffice.
  pub strchr-FirstAt :
      (k n s : ℕ)
      → IsString m s k
      → k < n
      → (r : ℕ) × (strchr n m s ch ≡ some r) × FirstAt m s ch k r
  unfolding strchr
  strchr-FirstAt k zero s str hi = absurd (omega arith)
  strchr-FirstAt zero (suc n) s str hi =
      let here : m s ≡ 0 = ground (arith, str.end) in
      elim (Bool-cases (widen (m s) == ch)) [
        | inl e ↦ (s, rw (e, here) refl, first_here s 0 (==→eq _ _ e))
        | inr e ↦ (0, rw (e, here) refl, inl (refl, λ j h. ground (arith, ==→ne _ _ e)))
      ]
  strchr-FirstAt (suc k) (suc n) s str hi =
      let more : (m s == 0) ≡ false = ne→== _ _ (ground (arith, str.char 0)) in
      elim (Bool-cases (widen (m s) == ch)) [
        | inl e ↦ (s, rw (more, e) refl, first_here s (suc k) (==→eq _ _ e))
        | inr e ↦
            let (r, ran, found) =
              strchr-FirstAt k n (s + 1) (IsString-next (subst (IsString m s) (omega arith) str))
                (omega arith) in
            (
              r,
              rw (more, e) ran,
              subst (λ i. FirstAt m s ch i r) (omega arith)
                  (FirstAt-later s k r (no_head s (==→ne _ _ e)) found),
            )
      ]

  last_later : (s k r : ℕ) → ¬ Holds m s ch k → LastAt m s ch k r → LastAt m s ch (suc k) r
  last_later s k r ne (inl (e, absent)) = inl (e, λ j h. ground (arith, ne, absent j))
  last_later s k r ne (inr (j, e, h, here, after)) =
      inr (j, e, omega arith, here, λ i a b. ground (arith, ne, after i))

  last_before-LastAt : (k s : ℕ) → LastAt m s ch k (last_before k m s ch)
  unfolding last_before
  last_before-LastAt zero s = inl (refl, λ j h. absurd (omega arith))
  last_before-LastAt (suc k) s = elim (Bool-cases (widen (m (s + k)) == ch)) [
    | inl e ↦ rw e (inr (k, refl, omega arith, ==→eq _ _ e, λ i a b. absurd (omega arith)))
    | inr e ↦ rw e (last_later s k (last_before k m s ch) (==→ne _ _ e) (last_before-LastAt k s))
  ]

-- `strrchr` of a string of `k` characters returns a pointer to the last character that is `ch`, the
-- terminator included, or NULL if there is none. `k + 1` rounds suffice.
pub strrchr-LastAt :
    (k n : ℕ) {m : ℕ → ℕ} (s ch : ℕ)
    → IsString m s k
    → k < n
    → (r : ℕ) × (strrchr n m s ch ≡ some r) × LastAt m s ch (k + 1) r
unfolding strrchr
strrchr-LastAt k n {m} s ch str hi = (
  last_before (k + 1) m s ch,
  rw (strlen-IsString k n str hi) refl,
  last_before-LastAt m ch (k + 1) s,
)
