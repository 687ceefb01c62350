-- ===== src/Bitmap/Create.antt =====
-- `bitmap_create` makes a valid bitmap with every bit clear.
use cs350_os.Base.{
  ℕ, zero, suc, ◌+◌, ◌-◌, ◌*◌, ◌/◌, ◌%◌, ◌^◌, ◌<◌, ◌≤◌, ◌≡◌, inl, inr, Bool, true, false, not, ◌&&◌,
  ◌||◌, arith, length, get_or, refl, List, done, none, some, Bool-cases, ◌==◌, ltb, ltb→lt, lt→ltb,
  ap, ◌∙◌, get_elem?-eq-get_or, set, if◌then◌else◌, replicate, length-set, length-replicate,
  get_or-set,
}
use cs350_os.Bitmap.{Bitmap, divroundup, mark_over, create}
use cs350_os.Bitmap.Bytes.{test, every, every-at, test_zero, same, same→eq}
use cs350_os.Bitmap.Bits.{bit, IsValid, bits-le}

over_table :
    every 8 (λ o. every 8 (λ q. same (test (mark_over (8 - o) o 0) q) (not (ltb q o)))) ≡ true
unfolding every mark_over
over_table = refl

test-mark_over : (o q : ℕ) → o < 8 → q < 8 → test (mark_over (8 - o) o 0) q ≡ not (ltb q o)
test-mark_over o q ho hq = same→eq _ _ (every-at 8 _ q (every-at 8 _ o over_table ho) hq)

over_small : every 8 (λ o. ltb (mark_over (8 - o) o 0) 256) ≡ true
unfolding every mark_over
over_small = refl

mark_over-lt : (o : ℕ) → o < 8 → mark_over (8 - o) o 0 < 256
mark_over-lt o h = ltb→lt _ _ (every-at 8 _ o over_small h)

abbrev pub zeros : ℕ → List ℕ
zeros n = replicate n 0

get_or-zeros : (n i : ℕ) → get_or (zeros n) i 0 ≡ 0
get_or-zeros zero i = refl
get_or-zeros (suc n) zero = refl
get_or-zeros (suc n) (suc i) = get_or-zeros n i

-- The bytes of a new bitmap with `nbits` bits.
abbrev pub fresh : ℕ → List ℕ
fresh nbits =
    if nbits % 8 == 0
    then zeros (nbits / 8)
    else set (zeros (nbits / 8 + 1)) (nbits / 8) (mark_over (8 - nbits % 8) (nbits % 8) 0)

module _ (nbits : ℕ) (small : nbits + 8 ≤ 2 ^ 32) where
  pub create_lem : create true true nbits ≡ done (some (record { nbits = nbits; v = fresh nbits }))
  unfolding create
  create_lem = elim (Bool-cases (nbits % 8 == 0)) [
    | inl whole ↦ rw (words_whole whole, whole) (ground arith)
    | inr part ↦
        rw (words_part part, part)
          (ground (
            arith,
            get_elem?-eq-get_or (zeros (nbits / 8 + 1)) (nbits / 8) 0,
            get_or-zeros (nbits / 8 + 1) (nbits / 8),
            length-replicate {A = ℕ} (nbits / 8 + 1) 0,
          ))
  ]
    where
      words_whole : (nbits % 8 == 0) ≡ true → divroundup nbits 8 ≡ nbits / 8
      words_whole h = ground arith

      words_part : (nbits % 8 == 0) ≡ false → divroundup nbits 8 ≡ nbits / 8 + 1
      words_part h = ground arith

  get_or-fresh :
      (ix : ℕ)
      → get_or (fresh nbits) ix 0 ≡ (
          if (nbits % 8 == 0) || not (ix == nbits / 8)
          then 0
          else mark_over (8 - nbits % 8) (nbits % 8) 0)
  get_or-fresh ix = ground (
    arith,
    get_or-zeros (nbits / 8) ix,
    get_or-zeros (nbits / 8 + 1) ix,
    length-replicate {A = ℕ} (nbits / 8 + 1) 0,
    get_or-set (zeros (nbits / 8 + 1)) (nbits / 8) ix (mark_over (8 - nbits % 8) (nbits % 8) 0) 0,
  )

  bit-fresh : (i : ℕ) → i < 8 * length (fresh nbits) → bit (fresh nbits) i ≡ not (ltb i nbits)
  bit-fresh i h = ground (
    arith,
    get_or-fresh (i / 8),
    test_zero (i % 8),
    test-mark_over (nbits % 8) (i % 8),
    length-replicate {A = ℕ} (nbits / 8) 0,
    length-replicate {A = ℕ} (nbits / 8 + 1) 0,
    length-set (zeros (nbits / 8 + 1)) (nbits / 8) (mark_over (8 - nbits % 8) (nbits % 8) 0),
  )

  pub fresh-IsValid : IsValid (record { nbits = nbits; v = fresh nbits })
  fresh-IsValid = record {
    small = small;
    sized = ground (
      arith,
      length-replicate {A = ℕ} (nbits / 8) 0,
      length-replicate {A = ℕ} (nbits / 8 + 1) 0,
      length-set (zeros (nbits / 8 + 1)) (nbits / 8) (mark_over (8 - nbits % 8) (nbits % 8) 0),
    );
    bytes = λ ix. ground (arith, get_or-fresh ix, mark_over-lt (nbits % 8));
    over = λ i lo hi. ground (arith, bit-fresh i hi);
  }

  -- For a size whose rounding does not wrap at 32 bits, and with memory for both allocations,
  -- `bitmap_create` returns a valid bitmap of that size in which every bit below the size is
  -- clear; without the memory it returns NULL.
  pub create_clear :
      ((b : Bitmap) × (create true true nbits ≡ done (some b))
        × IsValid b
        × (b.nbits ≡ nbits)
        × ((i : ℕ) → i < nbits → bit b.v i ≡ false))
      × ((s w : Bool) → (s && w) ≡ false → create s w nbits ≡ done none)
  create_clear = (
    (
      record { nbits = nbits; v = fresh nbits },
      create_lem,
      fresh-IsValid,
      refl,
      λ i h. bit-fresh i (omega (arith, enough)) ∙ ap not (lt→ltb i nbits h),
    ),
    without_memory,
  )
    where
      enough : nbits ≤ 8 * length (fresh nbits)
      enough = bits-le fresh-IsValid

      without_memory : (s w : Bool) → (s && w) ≡ false → create s w nbits ≡ done none
      without_memory s w h = unfold create in ground arith
