-- ===== src/Files/Frame.antt =====
-- What it means for one table of open files to be in order.
use cs350_os.Base.{
  ℕ, ◌<◌, ◌≡◌, ◌≤◌, arith, ◌≢◌, false, ◌+◌, suc, true, Bool-cases, ◌==◌, inl, ==→eq, inr, zero,
}
use cs350_os.Files.{Files, first_free}

-- Entry `fd` of table `t` is in use.
abbrev pub InUse : Files → ℕ → ℕ → Type 0
InUse s t fd = (fd < 20) × (s.fds t fd ≢ 0)

-- Table `t` shares no file: each used entry points to an allocated struct of its own, which counts
-- one reference.
pub record IsPrivate (s : Files) (t : ℕ) : Type 0 where
  pub null : s.alive 0 ≡ false
  pub live : (fd : ℕ) → InUse s t fd → s.alive (s.fds t fd) ≡ true
  pub single : (fd : ℕ) → InUse s t fd → (s.file (s.fds t fd)).ref_count ≡ 1
  pub distinct : (a b : ℕ) → InUse s t a → InUse s t b → s.fds t a ≡ s.fds t b → a ≡ b

-- The first empty entry from `fd` on, among `n`, or the end of the range.
pub record IsFirst (s : Files) (t fd n r : ℕ) : Type 0 where
  pub low : fd ≤ r
  pub high : r ≤ fd + n
  pub empty : r < fd + n → s.fds t r ≡ 0
  pub used : (j : ℕ) → fd ≤ j → j < r → s.fds t j ≢ 0

pub first_free-IsFirst : (s : Files) (t n fd : ℕ) → IsFirst s t fd n (first_free s t n fd)
unfolding first_free
first_free-IsFirst s t zero fd = record {
  low = omega arith;
  high = omega arith;
  empty = λ h. absurd (omega arith);
  used = λ j a b. absurd (omega arith);
}
first_free-IsFirst s t (suc n) fd =
    let rest = first_free-IsFirst s t n (fd + 1) in
    elim (Bool-cases (s.fds t fd == 0)) [
      | inl e ↦ rw e (record {
        low = omega arith;
        high = omega arith;
        empty = λ h. ==→eq _ _ e;
        used = λ j a b. absurd (omega arith);
      })
      | inr e ↦ rw e (record {
        low = omega (arith, rest.low);
        high = omega (arith, rest.high);
        empty = λ h. rest.empty (omega arith);
        used = λ j a b. grind (arith, rest.used j);
      })
    ]
