-- ===== src/Bitmap.antt =====
-- kern/lib/bitmap.c: a fixed-size array of bits, packed into bytes.
pub mod Bytes
pub mod Bits
pub mod Ops
pub mod Alloc
pub mod Create
mod Tests
use Prim.Native.Nat.{bit_and, bit_or, bit_xor}
use cs350_os.Base.{
  ℕ, zero, suc, ◌+◌, ◌-◌, ◌*◌, ◌/◌, ◌%◌, ◌^◌, Bool, false, true, Option, none, some, List, Outcome,
  done, panic, ◌>>=◌, ◌>>◌, assert, load, ltb, ◌==◌, if◌then◌else◌, set, replicate, not, ◌&&◌,
}
use cs350_os.Base.Errno.{enospc}

-- `struct bitmap`: `v` is the buffer of `WORD_TYPE`, an unsigned char.
pub record Bitmap : Type 0 where
  pub nbits : ℕ
  pub v : List ℕ

abbrev pub word_allbits : ℕ
word_allbits = 0xff

-- `DIVROUNDUP` of lib.h at `u_int32_t`, with `BITS_PER_WORD` 8.
abbrev pub divroundup : ℕ → ℕ → ℕ
divroundup a b = (a + b - 1) % 2 ^ 32 / b

-- `(WORD_TYPE)1 << offset`, for an offset below 8.
abbrev pub mask_of : ℕ → ℕ
mask_of offset = 2 ^ offset

-- The loop of `bitmap_create` from offset `j`, with `n` rounds left, over the last byte.
pub mark_over : ℕ → ℕ → ℕ → ℕ
mark_over zero j w = w
mark_over (suc n) j w = mark_over n (j + 1) (bit_or w (mask_of j))

-- `bitmap_create`. The two flags say whether the two calls of `kmalloc` succeed; `none` is NULL.
pub create : Bool → Bool → ℕ → Outcome (Option Bitmap)
unfolding mark_over
create struct_ok words_ok nbits =
    let words = divroundup nbits 8 in
    let v = replicate words 0 in
    let ix = words - 1 in
    let overbits = (nbits + 2 ^ 32 - ix * 8) % 2 ^ 32 in
    if not (struct_ok && words_ok)
    then done none
    else if ltb (nbits / 8) words
    then (do
      assert (nbits / 8 == words - 1)
      assert (ltb 0 overbits && ltb overbits 8)
      w ← load v ix
      done (some (record { nbits = nbits; v = set v ix (mark_over (8 - overbits) overbits w) })))
    else done (some (record { nbits = nbits; v = v }))

-- The inner loop of `bitmap_alloc`: the first clear bit of a byte.
find_clear : ℕ → ℕ → ℕ → Option ℕ
find_clear zero offset w = none
find_clear (suc n) offset w =
    let rest = find_clear n (offset + 1) w in
    if bit_and w (mask_of offset) == 0 then some offset else rest

-- The outer loop, with `n` bytes left. It returns the error code, `*index` if it is written, and
-- the bitmap.
alloc_loop : ℕ → ℕ → Bitmap → Outcome (ℕ × Option ℕ × Bitmap)
alloc_loop zero ix b = done (enospc, none, b)
alloc_loop (suc n) ix b =
    let rest = alloc_loop n (ix + 1) b in
    load b.v ix >>= λ w. if w == word_allbits then rest else elim (find_clear 8 0 w) [
      | none ↦ panic
      | some offset ↦
          let index = (ix * 8 + offset) % 2 ^ 32 in
          assert (ltb index b.nbits)
          >> done (0, some index, record b { v = set b.v ix (bit_or w (mask_of offset)) })
    ]

pub alloc : Bitmap → Outcome (ℕ × Option ℕ × Bitmap)
unfolding alloc_loop find_clear
alloc b = alloc_loop (divroundup b.nbits 8) 0 b

-- `bitmap_translate`
abbrev pub translate : ℕ → ℕ × ℕ
translate bitno = (bitno / 8, mask_of (bitno % 8))

pub mark : Bitmap → ℕ → Outcome Bitmap
mark b index = do
  assert (ltb index b.nbits)
  let (ix, mask) = translate index
  w ← load b.v ix
  assert (bit_and w mask == 0)
  done (record b { v = set b.v ix (bit_or w mask) })

-- `~mask` is taken to the byte that it is stored in.
pub unmark : Bitmap → ℕ → Outcome Bitmap
unmark b index = do
  assert (ltb index b.nbits)
  let (ix, mask) = translate index
  w ← load b.v ix
  assert (not (bit_and w mask == 0))
  done (record b { v = set b.v ix (bit_and w (bit_xor mask 0xff)) })

pub isset : Bitmap → ℕ → Outcome ℕ
isset b index = do let (ix, mask) = translate index; w ← load b.v ix; done (bit_and w mask)
