-- ===== src/Strings/Token.antt =====
-- `strtok_r`.
use mathlib.Core.Path.{subst}
use native.Mathlib.Decide.{ℕ_discrete}
use cs350_os.Base.{
  ℕ, ◌<◌, ◌≡◌, ◌+◌, ◌≢◌, arith, some, ◌≤◌, true, suc, ◌⊎◌, false, ◌==◌, ne→==, inl, inr, ap, zero,
  refl, Option, update, sym, if◌then◌else◌, ◌-◌,
}
use cs350_os.Strings.{widen, is_sep, skip_seps, skip_word, strtok_r}
use cs350_os.Strings.Inv.{IsString}
use cs350_os.Strings.Find.{strchr-FirstAt}

pub widen-injective : (c d : ℕ) → c < 256 → d < 256 → widen c ≡ widen d → c ≡ d
unfolding widen
widen-injective c d hc hd e = ground (arith, e)

-- The character at `p` is one of the `q` characters of the string at `seps`.
abbrev pub IsSep : (ℕ → ℕ) → ℕ → ℕ → ℕ → Type 0
IsSep m seps q p = (j : ℕ) × (j < q) × (m (seps + j) ≡ m p)

module _ {m : ℕ → ℕ} (bytes : (x : ℕ) → m x < 256) (seps q r : ℕ) (real : seps ≢ 0)
    (list : IsString m seps q) (enough : q < r) where
  is_sep_cases :
      (p : ℕ)
      → m p ≢ 0
      → ((is_sep r m seps p ≡ some true) × IsSep m seps q p)
        ⊎ ((is_sep r m seps p ≡ some false) × ¬ IsSep m seps q p)
  unfolding is_sep
  is_sep_cases p ne =
      let (found, ran, at) = strchr-FirstAt m (widen (m p)) q r seps list enough in
      elim at [
        | inl (e, absent) ↦
            inr (rw (ran, e) refl, λ (j, h, same). absurd (absent j (omega arith) (ap widen same)))
        | inr (j, e, h, here, before) ↦
            let same : m (seps + j) ≡ m p = widen-injective _ _ (bytes _) (bytes _) here in
            let some_place : (found == 0) ≡ false = ne→== _ _ (omega arith) in
            inl (rw (ran, some_place) refl, (j, ground (arith, list.end), same))
      ]

  module _ (s last : ℕ) (end : m last ≡ 0) (char : (x : ℕ) → s ≤ x → x < last → m x ≢ 0) where
    -- A scan of the string from `p` on stops at the first place that is `S`, or the end, and all before
    -- it are `B`.
    abbrev Scans : (ℕ → Type 0) → (ℕ → Type 0) → ℕ → Option ℕ → Type 0
    Scans B S p result =
        (j : ℕ) × (result ≡ some j)
        × (p ≤ j)
        × (j ≤ last)
        × ((x : ℕ) → p ≤ x → x < j → B x)
        × (j < last → S j)

    scan_on :
        (B S : ℕ → Type 0) (p : ℕ) (result : Option ℕ)
        → B p
        → Scans B S (p + 1) result
        → Scans B S p result
    scan_on B S p result first (j, ran, a, b, before, at) = (
      j,
      ran,
      omega arith,
      b,
      λ x lo hi. elim (ℕ_discrete x p) [
        | yes e ↦ subst B (sym e) first
        | no ne ↦ before x (omega arith) hi
      ],
      at,
    )

    skip_seps-Scans :
        (n p : ℕ)
        → s ≤ p
        → p ≤ last
        → last < p + n
        → Scans (IsSep m seps q) (λ x. ¬ IsSep m seps q x) p (skip_seps n r m seps p)
    unfolding skip_seps
    skip_seps-Scans zero p from lo hi = absurd (omega arith)
    skip_seps-Scans (suc n) p from lo hi = elim (ℕ_discrete p last) [
      | yes e ↦ (
        p,
        ground (arith, end),
        omega arith,
        lo,
        λ x a b. absurd (omega arith),
        λ h. absurd (omega arith),
      )
      | no ne ↦
          let more : (m p == 0) ≡ false = ne→== _ _ (char p from (omega arith)) in
          elim (is_sep_cases p (char p from (omega arith))) [
            | inl (e, sep) ↦
                rw (more, e)
                  (scan_on _ _ p _ sep
                    (skip_seps-Scans n (p + 1) (omega arith) (omega arith) (omega arith)))
            | inr (e, word) ↦
                (p, rw (more, e) refl, omega arith, lo, λ x a b. absurd (omega arith), λ h. word)
          ]
    ]

    skip_word-Scans :
        (n p : ℕ)
        → s ≤ p
        → p ≤ last
        → last < p + n
        → Scans (λ x. ¬ IsSep m seps q x) (IsSep m seps q) p (skip_word n r m seps p)
    unfolding skip_word
    skip_word-Scans zero p from lo hi = absurd (omega arith)
    skip_word-Scans (suc n) p from lo hi = elim (ℕ_discrete p last) [
      | yes e ↦ (
        p,
        ground (arith, end),
        omega arith,
        lo,
        λ x a b. absurd (omega arith),
        λ h. absurd (omega arith),
      )
      | no ne ↦
          let more : (m p == 0) ≡ false = ne→== _ _ (char p from (omega arith)) in
          elim (is_sep_cases p (char p from (omega arith))) [
            | inr (e, word) ↦
                rw (more, e)
                  (scan_on _ _ p _ word
                    (skip_word-Scans n (p + 1) (omega arith) (omega arith) (omega arith)))
            | inl (e, sep) ↦
                (p, rw (more, e) refl, omega arith, lo, λ x a b. absurd (omega arith), λ h. sep)
          ]
    ]

-- What `strtok_r` returns, from what its two loops find.
module _ (m : ℕ → ℕ) (s seps n r string context head : ℕ) (real : s ≢ 0)
    (given : (string ≡ s) ⊎ ((string ≡ 0) × (context ≡ s)))
    (ran : skip_seps n r m seps s ≡ some head) where
  begin : (if string == 0 then context else string) ≡ s
  begin = ground (arith, given)

  no_word : m head ≡ 0 → strtok_r n r m string seps context ≡ some (0, 0, m)
  unfolding strtok_r
  no_word over = rw (begin, ne→== _ _ real, ran, over) refl

  module _ (tail : ℕ) (more : m head ≢ 0) (ran' : skip_word n r m seps head ≡ some tail) where
    last_word : m tail ≡ 0 → strtok_r n r m string seps context ≡ some (head, 0, m)
    unfolding strtok_r
    last_word over = rw (begin, ne→== _ _ real, ran, ne→== _ _ more, ran', over) refl

    next_word :
        m tail ≢ 0 → strtok_r n r m string seps context ≡ some (head, tail + 1, update m tail 0)
    unfolding strtok_r
    next_word found = rw (begin, ne→== _ _ real, ran, ne→== _ _ more, ran', ne→== _ _ found) refl

-- A call of `strtok_r` on the string of `k` characters at `s`, given to it or left in the context by
-- the call before, with the separators at `seps`. Either the string has separators only, and NULL is
-- returned; or the word returned starts at the first character that is none, and ends before the next
-- separator or the end of the string. A terminator replaces that separator and the context is the
-- place after it; at the end of the string the memory is unchanged and the context NULL.
pub strtok_r-word :
    {m : ℕ → ℕ} (s k seps q n r string context : ℕ)
    → ((x : ℕ) → m x < 256)
    → IsString m s k
    → s ≢ 0
    → IsString m seps q
    → seps ≢ 0
    → ((string ≡ s) ⊎ ((string ≡ 0) × (context ≡ s)))
    → k < n
    → q < r
    → ((strtok_r n r m string seps context ≡ some (0, 0, m))
        × ((x : ℕ) → s ≤ x → x < s + k → IsSep m seps q x))
      ⊎ ((head tail : ℕ) × (s ≤ head)
          × (head < tail)
          × (tail ≤ s + k)
          × ((x : ℕ) → s ≤ x → x < head → IsSep m seps q x)
          × ((x : ℕ) → head ≤ x → x < tail → ¬ IsSep m seps q x)
          × (tail ≡ s + k → strtok_r n r m string seps context ≡ some (head, 0, m))
          × (tail < s + k
              → (strtok_r n r m string seps context ≡ some (head, tail + 1, update m tail 0))
                × IsSep m seps q tail))
strtok_r-word {m} s k seps q n r string context bytes str real list there given hn hr =
    let char : (x : ℕ) → s ≤ x → x < s + k → m x ≢ 0 = λ x a b. ground (arith, str.char (x - s)) in
    let (head, ran, a, b, seps_before, word) =
      skip_seps-Scans bytes seps q r there list hr s (s + k) str.end char n s (omega arith)
        (omega arith) (omega arith) in
    elim (ℕ_discrete head (s + k)) [
      | yes e ↦
          let over : m head ≡ 0 = rw e str.end in
          inl (
            no_word m s seps n r string context head real given ran over,
            λ x lo hi. seps_before x lo (omega arith),
          )
      | no ne ↦
          let more : m head ≢ 0 = char head a (omega arith) in
          let (tail, ran', lo, hi, word_before, sep) =
            skip_word-Scans bytes seps q r there list hr s (s + k) str.end char n head a b
              (omega arith) in
          let longer : head ≢ tail =
            λ e. word (omega arith) (subst (IsSep m seps q) (sym e) (sep (omega arith))) in
          inr (
            head,
            tail,
            a,
            omega arith,
            hi,
            seps_before,
            word_before,
            λ e.
                let over : m tail ≡ 0 = rw e str.end in
                last_word m s seps n r string context head real given ran tail more ran' over,
            λ h. (
              next_word m s seps n r string context head real given ran tail more ran'
                  (char tail (omega arith) h),
              sep h,
            ),
          )
    ]
