-- ===== src/Strings/Inv.antt =====
-- C strings in memory.
use cs350_os.Base.{ℕ, ◌+◌, ◌≡◌, ◌<◌, ◌≢◌, arith}

-- A string of `n` characters starts at `s`.
pub record IsString (m : ℕ → ℕ) (s n : ℕ) : Type 0 where
  pub end : m (s + n) ≡ 0
  pub char : (j : ℕ) → j < n → m (s + j) ≢ 0

pub IsString-next : {m : ℕ → ℕ} {s k : ℕ} → IsString m s (k + 1) → IsString m (s + 1) k
IsString-next {m} {s} {k} str = record {
  end = ground (arith, str.end);
  char = λ j h. ground (arith, str.char (1 + j));
}
