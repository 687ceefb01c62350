-- ===== src/Queue/Window.antt =====
-- Windows on a ring of `size` slots: what lies in `n` slots from `h` on.
use Prim.Native.Nat.{zero, suc}
use native.Mathlib.Nat.{mod-eq_of_lt, mod_self}
use native.Mathlib.Decide.{dec_lt}
use cs350_os.Base.{
  ℕ, ◌+◌, ◌-◌, ◌%◌, ◌<◌, ◌≡◌, refl, List, [], ◌∷◌, ◌++◌, length, get_or, set, get_or-set_self,
  get_or-set_ne, arith, if◌then◌else◌, ltb, ◌==◌, ap, ne→==, eq→==,
}

-- The slot after `i`, as `(i + 1) % size` computes it.
pub next_slot : (size i : ℕ) → i < size → (i + 1) % size ≡ (if i + 1 == size then 0 else i + 1)
next_slot size i h = elim (dec_lt (i + 1) size) [
  | yes p ↦ rw (ne→== (i + 1) size (omega arith)) (mod-eq_of_lt p)
  | no p ↦ let e : i + 1 ≡ size = omega arith in rw (e, eq→== size size refl) (mod_self size)
]

module _ (slots : List ℕ) (size : ℕ) where
  abbrev pub window : ℕ → ℕ → List ℕ
  window h zero = []
  window h (suc n) = get_or slots h 0 ∷ window ((h + 1) % size) n

  pub length-window : (start k : ℕ) → length (window start k) ≡ k
  length-window start zero = refl
  length-window start (suc k) = ap suc (length-window ((start + 1) % size) k)

-- The slot `n` steps after `h`, for `n` at most `size`.
abbrev pub slot_after : ℕ → ℕ → ℕ → ℕ
slot_after size h n = if ltb (h + n) size then h + n else h + n - size

-- Writing just past a window extends it by what is written.
pub window-set :
    (slots : List ℕ) (size x n h w : ℕ)
    → length slots ≡ size
    → h < size
    → n < size
    → w ≡ slot_after size h n
    → window (set slots w x) size h (suc n) ≡ window slots size h n ++ (x ∷ [])
window-set slots size x zero h w len hh hn e = ground (arith, get_or-set_self slots w x 0)
window-set slots size x (suc n) h w len hh hn e = ground (
  arith,
  next_slot size h hh,
  get_or-set_ne slots w h x 0,
  window-set slots size x n ((h + 1) % size) w len,
)

-- Writing just past a window leaves what is in it.
pub window-set_past :
    (slots : List ℕ) (size x n h w : ℕ)
    → length slots ≡ size
    → h < size
    → n < size
    → w ≡ slot_after size h n
    → window (set slots w x) size h n ≡ window slots size h n
window-set_past slots size x zero h w len hh hn e = refl
window-set_past slots size x (suc n) h w len hh hn e = ground (
  arith,
  next_slot size h hh,
  get_or-set_ne slots w h x 0,
  window-set_past slots size x n ((h + 1) % size) w len,
)
