-- ===== src/User/Strings.antt =====
-- `copyinstr` of a string.
use native.Mathlib.Decide.{ℕ_discrete}
use cs350_os.Base.{
  ℕ, Option, ◌≤◌, ◌<◌, ◌≡◌, ◌+◌, some, arith, if◌then◌else◌, suc, leb, Bool-cases, ◌&&◌, ltb, ◌-◌,
  inr, none, inl, update, ◌==◌, false, ne→==, zero, ◌^◌, ◌∙◌, refl,
}
use cs350_os.Base.Errno.{efault, enametoolong}
use cs350_os.Strings.Inv.{IsString}
use cs350_os.Strings.Copy.{Apart, StringCopied}
use cs350_os.User.{copystr, usertop, copycheck, copyinstr, copy_string}

module _ (k dest src maxlen stoplen : ℕ) where
  -- The result of the loop that has copied up to `i`.
  abbrev Copies : ℕ → (ℕ → ℕ) → ℕ × Option ℕ × (ℕ → ℕ) → Type 0
  Copies i m r =
      (k < maxlen
        → k < stoplen
        → (m' : ℕ → ℕ) × (r ≡ (0, some (k + 1), m'))
          × ((a : ℕ)
              → m' a
                ≡ (if leb (dest + i) a && leb a (dest + k) then m (src + (a - dest)) else m a)))
      × (stoplen ≤ k → stoplen < maxlen → (m' : ℕ → ℕ) × (r ≡ (efault, none, m')))
      × (maxlen ≤ k → maxlen ≤ stoplen → (m' : ℕ → ℕ) × (r ≡ (enametoolong, none, m')))

  copystr-Copies :
      (n i : ℕ) (m : ℕ → ℕ)
      → IsString m src k
      → Apart dest src k
      → i ≤ k
      → i ≤ maxlen
      → i ≤ stoplen
      → maxlen < i + n
      → Copies i m (copystr n i m dest src maxlen stoplen)
  unfolding copystr
  copystr-Copies zero i m str apart lo a b hi = absurd (omega arith)
  copystr-Copies (suc n) i m str apart lo a b hi =
      elim (Bool-cases (ltb i maxlen && ltb i stoplen)) [
        | inr e ↦ (λ h g. absurd (ground arith), λ h g. (m, ground arith), λ h g. (m, ground arith))
        | inl e ↦ elim (ℕ_discrete i k) [
          | yes at_end ↦
              let here : m (src + i) ≡ 0 = rw at_end str.end in
              (
                λ h g. (
                  update m (dest + i) (m (src + i)),
                  rw (e, here) (ground (arith, at_end)),
                  λ x. ground (arith, at_end),
                ),
                λ h g. absurd (ground arith),
                λ h g. absurd (ground arith),
              )
          | no ne ↦
              let m' : ℕ → ℕ = update m (dest + i) (m (src + i)) in
              let str' : IsString m' src k = record {
                end = ground (arith, str.end, apart);
                char = λ j h. ground (arith, str.char j, apart);
              } in
              let more : (m (src + i) == 0) ≡ false = ne→== _ _ (str.char i (omega arith)) in
              let (copied, ends, long) =
                copystr-Copies n (i + 1) m' str' apart (omega arith) (ground arith) (ground arith)
                  (omega arith) in
              (
                λ h g.
                    let (r, ran, holds) = copied h g in
                    (r, rw (e, more) ran, λ x. ground (arith, holds x, apart)),
                λ h g. let (r, ran) = ends h g in (r, rw (e, more) ran),
                λ h g. let (r, ran) = long h g in (r, rw (e, more) ran),
              )
        ]
      ]

-- How much of `len` bytes from `src` lies in user memory.
abbrev pub reach : ℕ → ℕ → ℕ
reach src len = if ltb usertop (src + len) then usertop - src else len

copycheck_lem :
    (src len : ℕ)
    → src < 2 ^ 31
    → 0 < len
    → src + len ≤ 2 ^ 32
    → copycheck src len ≡ (0, reach src len)
unfolding copycheck
copycheck_lem src len low pos fits = ground arith

run_lem :
    (m : ℕ → ℕ) (dest src len : ℕ)
    → src < 2 ^ 31
    → 0 < len
    → src + len ≤ 2 ^ 32
    → copyinstr none m src dest len ≡ copystr (len + 1) 0 m dest src len (reach src len)
unfolding copyinstr copy_string
run_lem m dest src len low pos fits = rw (copycheck_lem src len low pos fits) refl

-- Let a string of `k` characters start at `src` in user memory, not overlapping the place for its copy, and
-- let no copy fault. `copyinstr` of up to `len` bytes, of a region that does not wrap around, copies the
-- string with its terminator, and nothing else, and reports `k + 1`, if that many bytes fit in `len` and lie
-- in user memory; it returns EFAULT if the string runs into kernel memory first, and ENAMETOOLONG if it is
-- longer than `len`.
pub copyinstr_outcomes :
    {m : ℕ → ℕ} (dest src len k : ℕ)
    → IsString m src k
    → Apart dest src k
    → src < 2 ^ 31
    → 0 < len
    → src + len ≤ 2 ^ 32
    → (k < len
        → src + k < 2 ^ 31
        → (r : ℕ → ℕ) × (copyinstr none m src dest len ≡ (0, some (k + 1), r))
          × StringCopied m dest src k r)
      × (2 ^ 31 ≤ src + k
          → 2 ^ 31 < src + len
          → (r : ℕ → ℕ) × (copyinstr none m src dest len ≡ (efault, none, r)))
      × (len ≤ k
          → src + len ≤ 2 ^ 31
          → (r : ℕ → ℕ) × (copyinstr none m src dest len ≡ (enametoolong, none, r)))
copyinstr_outcomes {m} dest src len k str apart low pos fits =
    let runs = run_lem m dest src len low pos fits in
    let (copied, ends, long) =
      copystr-Copies k dest src len (reach src len) (len + 1) 0 m str apart (omega arith)
        (omega arith) (omega arith) (omega arith) in
    (
      λ h g.
          let (r, ran, holds) = copied h (ground arith) in
          (r, runs ∙ ran, λ a. ground (arith, holds a)),
      λ h g. let (r, ran) = ends (ground arith) (ground arith) in (r, runs ∙ ran),
      λ h g. let (r, ran) = long h (ground arith) in (r, runs ∙ ran),
    )
