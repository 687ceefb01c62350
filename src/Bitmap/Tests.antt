-- ===== src/Bitmap/Tests.antt =====
-- kern/lib/bitmap.c on a bitmap of ten bits, and the theorems at it.
use cs350_os.Base.{
  ℕ, ◌<◌, ◌≡◌, ◌⊎◌, refl, true, false, ◌||◌, none, some, [], ◌∷◌, arith, done, panic, ◌>>=◌, ◌==◌,
}
use cs350_os.Base.Errno.{enospc}
use cs350_os.Bitmap.{Bitmap, mark_over, create, alloc, mark}
use cs350_os.Bitmap.Bits.{bit, IsValid, with_bit-IsValid}
use cs350_os.Bitmap.Create.{fresh-IsValid}
use cs350_os.Bitmap.Alloc.{alloc_first}

abbrev ten : Bitmap
ten = record { nbits = 10; v = 0 ∷ 0xfc ∷ [] }

create-ten : create true true 10 ≡ done (some ten)
unfolding create
create-ten = refl

alloc-ten : alloc ten ≡ done (0, some 0, record ten { v = 1 ∷ 0xfc ∷ [] })
unfolding alloc
alloc-ten = refl

alloc_full :
    alloc (record ten { v = 0xff ∷ 0xff ∷ [] })
    ≡ done (enospc, none, record ten { v = 0xff ∷ 0xff ∷ [] })
unfolding alloc
alloc_full = refl

mark_twice : (mark ten 9 >>= λ b. mark b 9) ≡ panic
unfolding mark
mark_twice = refl

ten-IsValid : IsValid ten
unfolding mark_over
ten-IsValid = fresh-IsValid 10 (omega arith)

alloc_first_example :
    ((i : ℕ) × (b' : Bitmap) × (alloc ten ≡ done (0, some i, b'))
      × (i < 10)
      × (bit (0 ∷ 0xfc ∷ []) i ≡ false)
      × ((j : ℕ) → j < i → bit (0 ∷ 0xfc ∷ []) j ≡ true)
      × IsValid b'
      × (b'.nbits ≡ 10)
      × ((j : ℕ) → bit b'.v j ≡ ((j == i) || bit (0 ∷ 0xfc ∷ []) j)))
    ⊎ ((alloc ten ≡ done (enospc, none, ten)) × ((j : ℕ) → j < 10 → bit (0 ∷ 0xfc ∷ []) j ≡ true))
alloc_first_example = alloc_first ten-IsValid

abbrev ten_marked : Bitmap
ten_marked = record { nbits = 10; v = 8 ∷ 0xfc ∷ [] }

ten_marked-IsValid : IsValid ten_marked
ten_marked-IsValid = with_bit-IsValid ten-IsValid 3 (omega arith)
