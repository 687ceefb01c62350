-- ===== src/Bitmap/Alloc.antt =====
-- `bitmap_alloc` takes the first clear bit.
use cs350_os.Base.{
  ℕ, zero, suc, ◌+◌, ◌*◌, ◌%◌, ◌<◌, ◌≡◌, ◌≢◌, ◌⊎◌, inl, inr, Bool, true, false, not, ◌&&◌, ◌||◌,
  arith, get_or, refl, Outcome, done, Option, none, some, Option-cases, Bool-cases, ◌==◌, ltb,
  ==→ne, ◌∙◌, get_elem?-eq-get_or,
}
use native.Mathlib.Decide.{dec_lt}
use cs350_os.Base.Errno.{enospc}
use cs350_os.Bitmap.{Bitmap, divroundup, find_clear, alloc_loop, alloc}
use cs350_os.Bitmap.Bytes.{test, every, every-at, test_full}
use cs350_os.Bitmap.Bits.{bit, IsValid, with_bit, bits-le, with_bit-IsValid, bit-with_bit}

abbrev finds : ℕ → Option ℕ → Bool
finds w none = false
finds w (some o) = ltb o 8 && (not (test w o) && every o (test w))

find_table : every 256 (λ w. (w == 0xff) || finds w (find_clear 8 0 w)) ≡ true
unfolding every find_clear
find_table = refl

-- In a byte with a clear bit the inner loop finds the first.
find_clear_lem :
    (w : ℕ)
    → w < 256
    → w ≢ 0xff
    → (o : ℕ) × (find_clear 8 0 w ≡ some o)
      × (o < 8)
      × (test w o ≡ false)
      × ((p : ℕ) → p < o → test w p ≡ true)
find_clear_lem w hw ne = elim (Option-cases (find_clear 8 0 w)) [
  | inl e ↦ absurd (none_impossible e checked)
  | inr (o, e) ↦ (
    o,
    e,
    ground (arith, checked),
    ground (arith, checked),
    λ p hp. every-at o (test w) p (ground (arith, checked)) hp,
  )
]
  where
    checked : ((w == 0xff) || finds w (find_clear 8 0 w)) ≡ true
    checked = every-at 256 _ w find_table hw

    none_impossible :
        find_clear 8 0 w ≡ none → ((w == 0xff) || finds w (find_clear 8 0 w)) ≡ true → ⊥
    none_impossible e h = ground arith

-- What a search of the bitmap returns: the first clear bit, marked, or that there is none.
abbrev pub Allocates : Bitmap → Outcome (ℕ × Option ℕ × Bitmap) → Type 0
Allocates b r =
    ((i : ℕ) × (r ≡ done (0, some i, record b { v = with_bit b.v i }))
      × (i < b.nbits)
      × (bit b.v i ≡ false)
      × ((j : ℕ) → j < i → bit b.v j ≡ true))
    ⊎ ((r ≡ done (enospc, none, b)) × ((j : ℕ) → j < b.nbits → bit b.v j ≡ true))

module _ {b : Bitmap} (valid : IsValid b) where
  open valid use {small, sized, bytes, over}

  bit_at : (ix o : ℕ) → o < 8 → bit b.v (ix * 8 + o) ≡ test (get_or b.v ix 0) o
  bit_at ix o h = ground arith

  -- A byte that is not full, after full ones, holds the first clear bit.
  stop-Allocates :
      (n ix o : ℕ)
      → ix < divroundup b.nbits 8
      → ((j : ℕ) → j < ix * 8 → bit b.v j ≡ true)
      → (get_or b.v ix 0 == 0xff) ≡ false
      → find_clear 8 0 (get_or b.v ix 0) ≡ some o
      → o < 8
      → test (get_or b.v ix 0) o ≡ false
      → ((p : ℕ) → p < o → test (get_or b.v ix 0) p ≡ true)
      → Allocates b (alloc_loop (suc n) ix b)
  unfolding alloc_loop
  stop-Allocates n ix o lt before free e small_o clear first = inl (
    ix * 8 + o,
    ground (arith, get_elem?-eq-get_or b.v ix 0, inside),
    inside,
    is_clear,
    λ j h. elim (dec_lt j (ix * 8)) [ yes p ↦ before j p | no p ↦ ground (arith, first (j % 8)) ],
  )
    where
      is_clear : bit b.v (ix * 8 + o) ≡ false
      is_clear = bit_at ix o small_o ∙ clear

      inside : ix * 8 + o < b.nbits
      inside = ground (arith, over (ix * 8 + o), is_clear)

  alloc_loop-Allocates :
      (n ix : ℕ)
      → ix + n ≡ divroundup b.nbits 8
      → ((j : ℕ) → j < ix * 8 → bit b.v j ≡ true)
      → Allocates b (alloc_loop n ix b)
  unfolding alloc_loop
  alloc_loop-Allocates zero ix e before = inr (refl, λ j h. before j (omega arith))
  alloc_loop-Allocates (suc n) ix e before = elim (Bool-cases (get_or b.v ix 0 == 0xff)) [
    | inl full ↦
        rw (get_elem?-eq-get_or b.v ix 0 (omega arith), full)
          (alloc_loop-Allocates n (ix + 1) (omega arith)
            λ j h. ground (arith, before j, test_full (j % 8)))
    | inr free ↦
        let (o, found, lt, clear, first) =
          find_clear_lem (get_or b.v ix 0) (bytes ix) (==→ne _ _ free) in
        stop-Allocates n ix o (omega arith) before free found lt clear first
  ]

  alloc-Allocates : Allocates b (alloc b)
  unfolding alloc
  alloc-Allocates = alloc_loop-Allocates (divroundup b.nbits 8) 0 (omega arith) (λ j h. elim h [ ])

  -- On a valid bitmap `bitmap_alloc` either returns 0 and the index of the first clear bit, sets
  -- that bit and no other and keeps the bitmap valid; or every bit below `nbits` is set, and it
  -- returns ENOSPC and changes nothing. No assertion of it fails.
  pub alloc_first :
      ((i : ℕ) × (b' : Bitmap) × (alloc b ≡ done (0, some i, b'))
        × (i < b.nbits)
        × (bit b.v i ≡ false)
        × ((j : ℕ) → j < i → bit b.v j ≡ true)
        × IsValid b'
        × (b'.nbits ≡ b.nbits)
        × ((j : ℕ) → bit b'.v j ≡ ((j == i) || bit b.v j)))
      ⊎ ((alloc b ≡ done (enospc, none, b)) × ((j : ℕ) → j < b.nbits → bit b.v j ≡ true))
  alloc_first = elim alloc-Allocates [
    | inl (i, e, lt, clear, first) ↦ inl (
      i,
      record b { v = with_bit b.v i },
      e,
      lt,
      clear,
      first,
      with_bit-IsValid valid i lt,
      refl,
      bit-with_bit b.v bytes i (omega (arith, bits-le valid)),
    )
    | inr full ↦ inr full
  ]
