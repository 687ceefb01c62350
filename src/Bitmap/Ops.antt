-- ===== src/Bitmap/Ops.antt =====
-- `bitmap_mark`, `bitmap_unmark` and `bitmap_isset`.
use Prim.Native.Nat.{bit_and, bit_or}
use cs350_os.Base.{
  ℕ, ◌/◌, ◌%◌, ◌^◌, ◌<◌, ◌≡◌, ◌≢◌, true, false, not, ◌&&◌, ◌||◌, arith, get_or, done, panic, ◌>>=◌,
  ◌==◌, refl, get_elem?-eq-get_or, get_or-set_self, set-set, set-get_or, if◌then◌else◌, ◌∙◌,
}
use cs350_os.Bitmap.{Bitmap, mark, unmark, isset}
use cs350_os.Bitmap.Bytes.{and-or}
use cs350_os.Bitmap.Bits.{
  bit, IsValid, with_bit, without_bit, bits-le, with_bit-IsValid, without_bit-IsValid, bit-with_bit,
  bit-without_bit,
}

module _ {b : Bitmap} (valid : IsValid b) (i : ℕ) (inside : i < b.nbits) where
  open valid use {sized, small, bytes}

  mark_lem : mark b i ≡ (if bit b.v i then panic else done (record b { v = with_bit b.v i }))
  unfolding mark
  mark_lem = ground (arith, get_elem?-eq-get_or b.v (i / 8) 0, bits-le valid)

  unmark_lem : unmark b i ≡ (if bit b.v i then done (record b { v = without_bit b.v i }) else panic)
  unfolding unmark
  unmark_lem = ground (arith, get_elem?-eq-get_or b.v (i / 8) 0, bits-le valid)

  -- On a valid bitmap, and a bit in range that is clear, `bitmap_mark` sets that bit and no other
  -- and keeps the bitmap valid; if the bit is set already its assertion fails.
  pub mark_bits :
      (bit b.v i ≡ true → mark b i ≡ panic)
      × (bit b.v i ≡ false
          → (b' : Bitmap) × (mark b i ≡ done b')
            × IsValid b'
            × (b'.nbits ≡ b.nbits)
            × ((j : ℕ) → bit b'.v j ≡ ((j == i) || bit b.v j)))
  mark_bits = (
    λ h. ground (arith, mark_lem),
    λ h. (
      record b { v = with_bit b.v i },
      ground (arith, mark_lem),
      with_bit-IsValid valid i inside,
      refl,
      bit-with_bit b.v bytes i (omega (arith, bits-le valid)),
    ),
  )

  -- On a valid bitmap, and a bit in range that is set, `bitmap_unmark` clears that bit and no
  -- other and keeps the bitmap valid; if the bit is clear already its assertion fails.
  pub unmark_bits :
      (bit b.v i ≡ false → unmark b i ≡ panic)
      × (bit b.v i ≡ true
          → (b' : Bitmap) × (unmark b i ≡ done b')
            × IsValid b'
            × (b'.nbits ≡ b.nbits)
            × ((j : ℕ) → bit b'.v j ≡ (not (j == i) && bit b.v j)))
  unmark_bits = (
    λ h. ground (arith, unmark_lem),
    λ h. (
      record b { v = without_bit b.v i },
      ground (arith, unmark_lem),
      without_bit-IsValid valid i inside,
      refl,
      bit-without_bit b.v bytes i (omega (arith, bits-le valid)),
    ),
  )

  -- On a valid bitmap and a bit in range, `bitmap_isset` returns a value that is nonzero if the
  -- bit is set and zero if it is clear.
  pub isset-bit :
      (r : ℕ) × (isset b i ≡ done r) × ((bit b.v i ≡ true) → r ≢ 0) × ((bit b.v i ≡ false) → r ≡ 0)
  unfolding isset
  isset-bit = (
    bit_and (get_or b.v (i / 8) 0) (2 ^ (i % 8)),
    ground (arith, get_elem?-eq-get_or b.v (i / 8) 0, bits-le valid),
    λ h. ground arith,
    λ h. ground arith,
  )

without-with :
    {b : Bitmap}
    → IsValid b
    → (i : ℕ) → i < b.nbits
    → bit b.v i ≡ false
    → without_bit (with_bit b.v i) i ≡ b.v
without-with {b} valid i h clear =
    rw
      (
        get_or-set_self b.v (i / 8) (bit_or (get_or b.v (i / 8) 0) (2 ^ (i % 8))) 0
            (omega (arith, bits-le valid)),
        set-set,
        and-or (get_or b.v (i / 8) 0) (i % 8) (valid.bytes (i / 8)) (omega arith) clear,
      )
      (set-get_or b.v (i / 8) 0)

-- On a valid bitmap, marking a clear bit in range and unmarking it gives the bitmap back.
pub unmark-mark :
    {b : Bitmap}
    → IsValid b
    → (i : ℕ) → i < b.nbits
    → bit b.v i ≡ false
    → (mark b i >>= λ b'. unmark b' i) ≡ done b
unmark-mark {b} valid i h clear =
    rw (mark_lem valid i h, clear)
      (unmark_lem (with_bit-IsValid valid i h) i h ∙ rw (is_set, without-with valid i h clear))
  where
    is_set : bit (with_bit b.v i) i ≡ true
    is_set = ground (arith, bit-with_bit b.v valid.bytes i (omega (arith, bits-le valid)) i)
