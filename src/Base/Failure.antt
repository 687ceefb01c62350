-- ===== src/Base/Failure.antt =====
-- Kernel code returns, or stops the machine: by a failed assertion, by `panic`, or by an access
-- outside the object that a pointer names.
use Prim.Native.Nat.{ℕ}
use mathlib.Core.Path.{◌≡◌, ap, refl}
use mathlib.Core.Bool.{Bool, true, false}
use mathlib.Core.Option.{Option, none, some}
use mathlib.Core.List.{List}
use cs350_os.Base.Lists.{get_elem?, length, set}
use cs350_os.Base.Tests.{ltb, if◌then◌else◌}

pub data Outcome {ℓ} (A : Type ℓ) : Type ℓ where
  done : A → Outcome A
  panic : Outcome A

infixl 5 ◌>>=◌ ◌>>◌
abbrev pub ◌>>=◌ {ℓ κ} : {A : Type ℓ} {B : Type κ} → Outcome A → (A → Outcome B) → Outcome B
done a >>= f = f a
panic >>= f = panic

abbrev pub ◌>>◌ {ℓ} : {B : Type ℓ} → Outcome (Unit {0}) → Outcome B → Outcome B
m >> k = m >>= λ _. k

-- The kernel's `assert`.
abbrev pub assert : Bool → Outcome (Unit {0})
assert true = done tt
assert false = panic

-- A pointer that must name something is followed.
abbrev pub deref {ℓ} : {A : Type ℓ} → Option A → Outcome A
deref none = panic
deref (some a) = done a

-- `a[i]`
abbrev pub load {ℓ} : {A : Type ℓ} → List A → ℕ → Outcome A
load xs i = deref (get_elem? xs i)

-- `a[i] = v`
abbrev pub store {ℓ} : {A : Type ℓ} → List A → ℕ → A → Outcome (List A)
store xs i v = if ltb i (length xs) then done (set xs i v) else panic

-- What code returned.
abbrev pub result {ℓ} : {A : Type ℓ} → A → Outcome A → A
result a (done b) = b
result a panic = a

pub done-injective {ℓ} : {A : Type ℓ} (a b : A) → ◌≡◌ {A = Outcome A} (done a) (done b) → a ≡ b
done-injective a b e = ap (result a) e

-- A test or an assertion before a return has held, if the code returned.
module _ {ℓ} {A : Type ℓ} {a b : A} where
  pub test_held : (c : Bool) → (if c then done a else panic) ≡ done b → (c ≡ true) × (a ≡ b)
  test_held true e = (refl, done-injective a b e)
  test_held false e = absurd cc

  pub assert_held : (c : Bool) → (assert c >> done a) ≡ done b → (c ≡ true) × (a ≡ b)
  assert_held true e = (refl, done-injective a b e)
  assert_held false e = absurd cc

pub assert_then {ℓ} :
    {A : Type ℓ} (c : Bool) (m : Outcome A) {b : A}
    → (assert c >> m) ≡ done b
    → (c ≡ true) × (m ≡ done b)
assert_then true m e = (refl, e)
assert_then false m e = absurd cc

pub map_done {ℓ κ} :
    {A : Type ℓ} {B : Type κ} (f : A → B) (m : Outcome A) {b : B}
    → (m >>= λ a. done (f a)) ≡ done b
    → (a : A) × (m ≡ done a) × (f a ≡ b)
map_done f (done a) {b} e = (a, refl, done-injective (f a) b e)
map_done f panic e = absurd cc
