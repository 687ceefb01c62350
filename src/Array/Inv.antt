-- ===== src/Array/Inv.antt =====
-- The invariant of `struct array`, the list that it holds, and what the loops do to its block.
use native.Mathlib.Numerals.{add-one}
use mathlib.Core.Path.{subst}
use mathlib.Core.Option.{some-injective}
use cs350_os.Base.{
  ℕ, Option, ◌≤◌, List, [], length, take, ◌<◌, get_elem?, ◌+◌, ◌≡◌, suc, set, ◌++◌, some, ◌∷◌, ◌-◌,
  done, none, ap, arith, drop, zero, refl, deref, get_or, ◌>>=◌, ltb, load, get_elem?-eq-get_or,
  true, length-set, ◌∙◌,
}
use cs350_os.Array.{Array, copy_slots}

abbrev pub words : Option (List ℕ) → List ℕ
words none = []
words (some block) = block

pub record IsValid (a : Array) : Type 0 where
  pub bounded : a.num ≤ a.max
  pub sized : length (words a.v) ≡ a.max

-- What the array holds.
abbrev pub contents : Array → List ℕ
contents a = take a.num (words a.v)

-- The first entries of `a` and `b` are the same, up to the smaller of the size of `a` and `n`.
abbrev pub Keeps : Array → ℕ → Array → Type 0
Keeps a n b = (k : ℕ) → k ≤ n → k ≤ a.num → take k (contents b) ≡ take k (contents a)

abbrev pub remove_at : List ℕ → ℕ → List ℕ
remove_at [] i = []
remove_at (x ∷ xs) zero = xs
remove_at (x ∷ xs) (suc i) = x ∷ remove_at xs i

pub take-suc-set :
    (xs : List ℕ) (i v : ℕ) → i < length xs → take (suc i) (set xs i v) ≡ take i xs ++ (v ∷ [])
take-suc-set [] i v h = elim h [ ]
take-suc-set (x ∷ xs) zero v h = refl
take-suc-set (x ∷ xs) (suc i) v h = ap (λ ys. x ∷ ys) (take-suc-set xs i v (omega arith))

pub take-suc :
    (xs : List ℕ) (i v : ℕ) → get_elem? xs i ≡ some v → take (suc i) xs ≡ take i xs ++ (v ∷ [])
take-suc [] i v h = absurd (ground arith)
take-suc (x ∷ xs) zero v h = ap (λ y. y ∷ []) (some-injective x v h)
take-suc (x ∷ xs) (suc i) v h = ap (λ ys. x ∷ ys) (take-suc xs i v h)

pub take-set : (xs : List ℕ) (n i v : ℕ) → i < n → take n (set xs i v) ≡ set (take n xs) i v
take-set xs zero i v h = elim h [ ]
take-set [] (suc n) i v h = refl
take-set (x ∷ xs) (suc n) zero v h = refl
take-set (x ∷ xs) (suc n) (suc i) v h = ap (λ ys. x ∷ ys) (take-set xs n i v (omega arith))

pub get_elem?-take : (xs : List ℕ) (n i : ℕ) → i < n → get_elem? (take n xs) i ≡ get_elem? xs i
get_elem?-take xs zero i h = elim h [ ]
get_elem?-take [] (suc n) i h = refl
get_elem?-take (x ∷ xs) (suc n) zero h = refl
get_elem?-take (x ∷ xs) (suc n) (suc i) h = get_elem?-take xs n i (omega arith)

pub take-take : (k n : ℕ) (xs : List ℕ) → k ≤ n → take k (take n xs) ≡ take k xs
take-take zero n xs h = refl
take-take (suc k) zero xs h = elim h [ ]
take-take (suc k) (suc n) [] h = refl
take-take (suc k) (suc n) (x ∷ xs) h = ap (λ ys. x ∷ ys) (take-take k n xs (omega arith))

pub take-take_append :
    (k : ℕ) (xs ys : List ℕ) → k ≤ length xs → take k (take k xs ++ ys) ≡ take k xs
take-take_append zero xs ys h = refl
take-take_append (suc k) [] ys h = elim h [ ]
take-take_append (suc k) (x ∷ xs) ys h = ap (λ zs. x ∷ zs) (take-take_append k xs ys (omega arith))

-- Moving the tail of a block down over entry `i` removes it.
pub take-moved :
    (i k : ℕ) (b : List ℕ)
    → i ≤ k
    → k < length b
    → take k (take i b ++ (take (k - i) (drop (suc i) b) ++ drop k b))
      ≡ remove_at (take (suc k) b) i
take-moved i k [] lo hi = elim hi [ ]
take-moved zero k (x ∷ xs) lo hi =
    let whole : k - zero ≡ k = omega arith in
    rw whole (take-take_append k xs (drop k (x ∷ xs)) (omega arith))
take-moved (suc i) zero (x ∷ xs) lo hi = elim lo [ ]
take-moved (suc i) (suc k) (x ∷ xs) lo hi =
    let same : suc k - suc i ≡ k - i = omega arith in
    rw same (ap (λ ys. x ∷ ys) (take-moved i k xs (omega arith) (omega arith)))

pub load_word :
    (v : Option (List ℕ)) (i : ℕ)
    → i < length (words v)
    → (deref v >>= λ block. load block i) ≡ done (get_or (words v) i 0)
load_word none i h = elim h [ ]
load_word (some block) i h = rw (get_elem?-eq-get_or block i 0 h) refl

-- One more entry is copied.
copy_one :
    (xs ys : List ℕ) (i : ℕ)
    → i < length xs
    → i < length ys
    → take i ys ≡ take i xs
    → take (i + 1) (set ys i (get_or xs i 0)) ≡ take (i + 1) xs
copy_one xs ys i hx hy same =
    rw
      (
        add-one i,
        take-suc-set ys i (get_or xs i 0) hy,
        take-suc xs i (get_or xs i 0) (get_elem?-eq-get_or xs i 0 hx),
        same,
      )
      refl

-- The loop of `array_preallocate` copies the entries.
copy_slots_lem :
    (a : Array) (n i : ℕ) (newv : List ℕ)
    → i + n ≤ length (words a.v)
    → i + n ≤ length newv
    → take i newv ≡ take i (words a.v)
    → (r : List ℕ) × (copy_slots n i a newv ≡ done r)
      × (length r ≡ length newv)
      × (take (i + n) r ≡ take (i + n) (words a.v))
unfolding copy_slots
copy_slots_lem a zero i newv old new same =
    (newv, refl, refl, subst (λ j. take j newv ≡ take j (words a.v)) (omega arith) same)
copy_slots_lem a (suc n) i newv old new same =
    let x : ℕ = get_or (words a.v) i 0 in
    let in_new : ltb i (length newv) ≡ true = ground arith in
    let size : length (set newv i x) ≡ length newv = length-set newv i x in
    let (r, ran, long, copied) =
      copy_slots_lem a n (i + 1) (set newv i x) (omega arith) (omega (arith, size))
        (copy_one (words a.v) newv i (omega arith) (omega arith) same) in
    (
      r,
      rw (load_word a.v i (omega arith), in_new) ran,
      long ∙ size,
      subst (λ j. take j r ≡ take j (words a.v)) (omega arith) copied,
    )

pub copy_all :
    (a : Array) (newv : List ℕ)
    → a.num ≤ length (words a.v)
    → a.num ≤ length newv
    → (r : List ℕ) × (copy_slots a.num 0 a newv ≡ done r)
      × (length r ≡ length newv)
      × (take a.num r ≡ contents a)
copy_all a newv old new =
    let (r, ran, long, same) = copy_slots_lem a a.num 0 newv (omega arith) (omega arith) refl in
    (r, ran, long, subst (λ j. take j r ≡ take j (words a.v)) (omega arith) same)
