-- ===== src/Strings/Length.antt =====
-- `strlen`.
use native.Mathlib.Decide.{ℕ_discrete}
use cs350_os.Base.{ℕ, ◌≤◌, ◌<◌, ◌+◌, ◌≡◌, some, arith, suc, ap, ◌==◌, false, ne→==, zero}
use cs350_os.Strings.{length_from, strlen}
use cs350_os.Strings.Inv.{IsString}

length_from_lem :
    (n k i : ℕ) (m : ℕ → ℕ) (s : ℕ)
    → IsString m s k
    → i ≤ k
    → k < i + n
    → length_from n m s i ≡ some k
unfolding length_from
length_from_lem zero k i m s str lo hi = absurd (omega arith)
length_from_lem (suc n) k i m s str lo hi = elim (ℕ_discrete i k) [
  | yes e ↦ let here : m (s + i) ≡ 0 = rw e str.end in rw here (ap some e)
  | no ne ↦
      let more : (m (s + i) == 0) ≡ false = ne→== _ _ (str.char i (omega arith)) in
      rw more (length_from_lem n k (i + 1) m s str (omega arith) (omega arith))
]

-- `strlen` of a string of `k` characters is `k`: `k + 1` rounds suffice.
pub strlen-IsString : {m : ℕ → ℕ} {s : ℕ} (k n : ℕ) → IsString m s k → k < n → strlen n m s ≡ some k
unfolding strlen
strlen-IsString {m} {s} k n str hi = length_from_lem n k 0 m s str (omega arith) (omega arith)
