-- ===== src/Strings/Number.antt =====
-- `atoi`.
use mathlib.Core.Path.{subst, ap₂}
use native.Mathlib.Decide.{ℕ_discrete}
use cs350_os.Base.{
  ℕ, ◌≤◌, ◌≡◌, arith, ◌<◌, suc, ◌⊎◌, ◌*◌, ◌≢◌, ◌+◌, refl, ◌-◌, some, ◌%◌, ◌^◌, inl, zero, ap, ◌∙◌,
  inr, ◌==◌, Bool-cases, if◌then◌else◌, false, ==→ne, sym, ◌||◌, ne→==, true,
}
use cs350_os.Strings.{widen, strchr, digits, skip_blanks, value_from, atoi}
use cs350_os.Strings.Inv.{IsString}
use cs350_os.Strings.Find.{strchr-FirstAt}
use cs350_os.Strings.Token.{widen-injective}

abbrev pub IsDigit : ℕ → Type 0
IsDigit c = (48 ≤ c) × (c ≤ 57)

abbrev pub IsBlank : ℕ → Type 0
IsBlank c = (c ≡ 32) ⊎ (c ≡ 9)

-- The number that `d` digits from `s` on write in base ten.
abbrev pub decimal : (ℕ → ℕ) → ℕ → ℕ → ℕ
decimal m s zero = 0
decimal m s (suc d) = decimal m s d * 10 + (m (s + d) - 48)

digits-IsString : IsString digits 1 10
digits-IsString = record { end = refl; char = λ j h. ground arith }

lookup :
    (c : ℕ)
    → c < 256
    → c ≢ 0
    → (IsDigit c → strchr 11 digits 1 (widen c) ≡ some (c - 47))
      × (¬ IsDigit c → strchr 11 digits 1 (widen c) ≡ some 0)
lookup c byte real =
    let (r, ran, found) = strchr-FirstAt digits (widen c) 10 11 1 digits-IsString (omega arith) in
    elim found [
      | inl (e, absent) ↦ (
        λ h. absurd (absent (c - 48) (omega arith) (ap widen (ground arith))),
        λ h. ran ∙ ap some e,
      )
      | inr (j, e, h, here, before) ↦
          let same : digits (1 + j) ≡ c = widen-injective _ _ (ground arith) byte here in
          (
            λ dig. ran ∙ ap some (ground (arith, same)),
            λ no_digit. absurd (no_digit (ground (arith, same))),
          )
    ]

skip_blanks_lem :
    (m : ℕ → ℕ) (b n s : ℕ)
    → ((j : ℕ) → j < b → IsBlank (m (s + j)))
    → ¬ IsBlank (m (s + b))
    → b < n
    → skip_blanks n m s ≡ some (s + b)
unfolding skip_blanks
skip_blanks_lem m b zero s blank other hi = absurd (omega arith)
skip_blanks_lem m zero (suc n) s blank other hi =
    let no_space : (m s == 32) ≡ false = ne→== _ _ (λ e. other (inl (ground (arith, e)))) in
    let no_tab : (m s == 9) ≡ false = ne→== _ _ (λ e. other (inr (ground (arith, e)))) in
    rw (no_space, no_tab) (ap some (omega arith))
skip_blanks_lem m (suc b) (suc n) s blank other hi =
    let next : (j : ℕ) → j < b → IsBlank (m (s + 1 + j)) =
      λ j h. subst (λ x. IsBlank (m x)) (omega arith) (blank (suc j) (omega arith)) in
    let stop : ¬ IsBlank (m (s + 1 + b)) =
      λ h. other (subst (λ x. IsBlank (m x)) (omega arith) h) in
    let rest = skip_blanks_lem m b n (s + 1) next stop (omega arith) in
    let first : IsBlank (m s) = subst (λ x. IsBlank (m x)) (omega arith) (blank 0 (omega arith)) in
    let tested : (m s == 32 || m s == 9) ≡ true = ground (arith, first) in
    rw tested (rest ∙ ap some (omega arith))

module _ (m : ℕ → ℕ) (bytes : (x : ℕ) → m x < 256) where
  value_stop : (n p v : ℕ) → ¬ IsDigit (m p) → value_from (suc n) m p v ≡ some v
  unfolding value_from
  value_stop n p v other = elim (Bool-cases (m p == 0)) [
    | inl e ↦ rw e refl
    | inr e ↦ rw (e, (lookup (m p) (bytes p) (==→ne _ _ e)).1 other) refl
  ]

  value_step :
      (n p v : ℕ)
      → IsDigit (m p)
      → value_from (suc n) m p v ≡ value_from n m (p + 1) ((v * 10 + (m p - 48)) % 2 ^ 32)
  unfolding value_from
  value_step n p v dig =
      let real : m p ≢ 0 = omega (arith, dig) in
      let place : (m p - 47 == 0) ≡ false = ne→== _ _ (omega (arith, dig)) in
      rw (ne→== _ _ real, (lookup (m p) (bytes p) real).0 dig, place)
        (ap (λ x. value_from n m (p + 1) ((v * 10 + x) % 2 ^ 32)) (omega (arith, dig)))

  -- The digits before the loop's place have been read into `val`.
  value_from_lem :
      (s d : ℕ)
      → ((j : ℕ) → j < d → IsDigit (m (s + j)))
      → ¬ IsDigit (m (s + d))
      → (n i : ℕ) → i ≤ d
      → d < i + n
      → value_from n m (s + i) (decimal m s i % 2 ^ 32) ≡ some (decimal m s d % 2 ^ 32)
  value_from_lem s d digit other zero i lo hi = absurd (omega arith)
  value_from_lem s d digit other (suc n) i lo hi = elim (ℕ_discrete i d) [
    | yes e ↦
        subst
          (λ k.
            value_from (suc n) m (s + k) (decimal m s k % 2 ^ 32) ≡ some (decimal m s d % 2 ^ 32))
          (sym e) (value_stop n (s + d) (decimal m s d % 2 ^ 32) other)
    | no ne ↦
        value_step n (s + i) (decimal m s i % 2 ^ 32) (digit i (omega arith))
        ∙ ap₂ (λ p v. value_from n m p v) (omega arith) (omega arith)
        ∙ value_from_lem s d digit other n (suc i) (omega arith) (omega arith)
  ]

-- Where the digits start, after a sign if there is one at `t`.
abbrev pub after_sign : (ℕ → ℕ) → ℕ → ℕ
after_sign m t = if m t == 45 || m t == 43 then t + 1 else t

-- `atoi` of `b` blanks, an optional sign and `d` digits that no digit follows is the number that the
-- digits write in base ten, negated if the sign is a minus, modulo 2^32. `b + 1` and `d + 1` rounds
-- suffice.
pub atoi-decimal :
    {m : ℕ → ℕ} (s b d n : ℕ)
    → ((x : ℕ) → m x < 256)
    → ((j : ℕ) → j < b → IsBlank (m (s + j)))
    → ¬ IsBlank (m (s + b))
    → ((j : ℕ) → j < d → IsDigit (m (after_sign m (s + b) + j)))
    → ¬ IsDigit (m (after_sign m (s + b) + d))
    → b < n
    → d < n
    → atoi n m s
      ≡ some (
          if m (s + b) == 45
          then (2 ^ 32 - decimal m (after_sign m (s + b)) d % 2 ^ 32) % 2 ^ 32
          else decimal m (after_sign m (s + b)) d % 2 ^ 32)
unfolding atoi
atoi-decimal {m} s b d n bytes blank other digit stop hb hd =
    let start : ℕ = after_sign m (s + b) in
    let value : value_from n m start 0 ≡ some (decimal m start d % 2 ^ 32) =
      subst (λ p. value_from n m p 0 ≡ some (decimal m start d % 2 ^ 32)) (omega arith)
        (value_from_lem m bytes start d digit stop n 0 (omega arith) (omega arith)) in
    rw (skip_blanks_lem m b n s blank other hb, value) refl
