-- ===== src/Array/Tests.antt =====
-- A small array, and the theorems at it.
use cs350_os.Base.{
  ℕ, some, arith, ◌≡◌, ◌<◌, ◌∷◌, done, refl, [], ◌++◌, get_elem?, ◌⊎◌, ◌≤◌, none, panic,
}
use cs350_os.Base.Errno.{enomem}
use cs350_os.Kmalloc.{roomy}
use cs350_os.Array.{Array, array_getguy, array_add, array_remove}
use cs350_os.Array.Inv.{IsValid, contents, remove_at}
use cs350_os.Array.Edit.{array_add_append, array_remove-getguy}

-- Two entries and no room.
abbrev pair : Array
pair = record { num = 2; max = 2; v = some (70 ∷ 80 ∷ []) }

pair-IsValid : IsValid pair
pair-IsValid = record { bounded = omega arith; sized = refl }

array_add_append_example :
    ((a' : Array) × (array_add roomy pair 90 ≡ done (0, a'))
      × IsValid a'
      × (contents a' ≡ contents pair ++ (90 ∷ [])))
    ⊎ ((bytes : ℕ) × (roomy.kmalloc bytes ≡ none) × (array_add roomy pair 90 ≡ done (enomem, pair)))
array_add_append_example = array_add_append roomy pair-IsValid 90 (omega arith)

array_remove-getguy_example :
    (◌<◌ 0 2
      → (a' : Array) × (array_remove pair 0 ≡ done a')
        × IsValid a'
        × (contents a' ≡ remove_at (contents pair) 0)
        × ((x : ℕ) × (array_getguy pair 0 ≡ done x) × (get_elem? (contents pair) 0 ≡ some x)))
    × (◌≤◌ 2 0 → (array_remove pair 0 ≡ panic) × (array_getguy pair 0 ≡ panic))
array_remove-getguy_example = array_remove-getguy pair-IsValid 0
