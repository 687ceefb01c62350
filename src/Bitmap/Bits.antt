-- ===== src/Bitmap/Bits.antt =====
-- A bitmap as a function from bit numbers to truth values, and the invariant of `struct bitmap`.
use Prim.Native.Nat.{bit_and, bit_or, bit_xor}
use cs350_os.Base.{
  ℕ, ◌+◌, ◌*◌, ◌/◌, ◌%◌, ◌^◌, ◌<◌, ◌≤◌, ◌≡◌, Bool, true, not, ◌&&◌, ◌||◌, List, arith, ◌==◌, length,
  get_or, set, length-set, get_or-set,
}
use cs350_os.Bitmap.{Bitmap, divroundup}
use cs350_os.Bitmap.Bytes.{test, test-or, test-and, or-lt, and-lt}

-- Bit `i` of a buffer.
abbrev pub bit : List ℕ → ℕ → Bool
bit v i = test (get_or v (i / 8) 0) (i % 8)

-- The bytes are bytes and as many as the bits need, and the bits past the last are marked in use.
pub record IsValid (b : Bitmap) : Type 0 where
  pub small : b.nbits + 8 ≤ 2 ^ 32
  pub sized : length b.v ≡ divroundup b.nbits 8
  pub bytes : (ix : ℕ) → get_or b.v ix 0 < 256
  pub over : (i : ℕ) → b.nbits ≤ i → i < 8 * length b.v → bit b.v i ≡ true

-- What the code stores for bit `i`.
abbrev pub with_bit : List ℕ → ℕ → List ℕ
with_bit v i = set v (i / 8) (bit_or (get_or v (i / 8) 0) (2 ^ (i % 8)))

abbrev pub without_bit : List ℕ → ℕ → List ℕ
without_bit v i = set v (i / 8) (bit_and (get_or v (i / 8) 0) (bit_xor (2 ^ (i % 8)) 0xff))

module _ (v : List ℕ) (bytes : (ix : ℕ) → get_or v ix 0 < 256) (i : ℕ) (h : i < 8 * length v) where
  pub bit-with_bit : (j : ℕ) → bit (with_bit v i) j ≡ ((j == i) || bit v j)
  bit-with_bit j = ground (
    arith,
    get_or-set v (i / 8) (j / 8) (bit_or (get_or v (i / 8) 0) (2 ^ (i % 8))) 0,
    test-or (get_or v (i / 8) 0) (i % 8) (j % 8) (bytes (i / 8)),
  )

  pub bit-without_bit : (j : ℕ) → bit (without_bit v i) j ≡ (not (j == i) && bit v j)
  bit-without_bit j = ground (
    arith,
    get_or-set v (i / 8) (j / 8) (bit_and (get_or v (i / 8) 0) (bit_xor (2 ^ (i % 8)) 0xff)) 0,
    test-and (get_or v (i / 8) 0) (i % 8) (j % 8) (bytes (i / 8)),
  )

  pub with_bit_bytes : (ix : ℕ) → get_or (with_bit v i) ix 0 < 256
  with_bit_bytes ix = ground (
    arith,
    get_or-set v (i / 8) ix (bit_or (get_or v (i / 8) 0) (2 ^ (i % 8))) 0,
    or-lt (get_or v (i / 8) 0) (i % 8) (bytes (i / 8)),
    bytes ix,
  )

  pub without_bit_bytes : (ix : ℕ) → get_or (without_bit v i) ix 0 < 256
  without_bit_bytes ix = ground (
    arith,
    get_or-set v (i / 8) ix (bit_and (get_or v (i / 8) 0) (bit_xor (2 ^ (i % 8)) 0xff)) 0,
    and-lt (get_or v (i / 8) 0) (i % 8) (bytes (i / 8)),
    bytes ix,
  )

module _ {b : Bitmap} (valid : IsValid b) where
  open valid use {small, sized, bytes, over}

  -- There are enough bytes for the bits.
  pub bits-le : b.nbits ≤ 8 * length b.v
  bits-le = omega arith

  pub with_bit-IsValid : (i : ℕ) → i < b.nbits → IsValid (record b { v = with_bit b.v i })
  with_bit-IsValid i h = record {
    small = small;
    sized = omega (arith, length-set b.v (i / 8) (bit_or (get_or b.v (i / 8) 0) (2 ^ (i % 8))));
    bytes = with_bit_bytes b.v bytes i (omega arith);
    over = λ j lo hi. ground (
      arith,
      bit-with_bit b.v bytes i (omega arith) j,
      over j lo,
      length-set b.v (i / 8) (bit_or (get_or b.v (i / 8) 0) (2 ^ (i % 8))),
    );
  }

  pub without_bit-IsValid : (i : ℕ) → i < b.nbits → IsValid (record b { v = without_bit b.v i })
  without_bit-IsValid i h = record {
    small = small;
    sized = omega (
      arith,
      length-set b.v (i / 8) (bit_and (get_or b.v (i / 8) 0) (bit_xor (2 ^ (i % 8)) 0xff)),
    );
    bytes = without_bit_bytes b.v bytes i (omega arith);
    over = λ j lo hi. ground (
      arith,
      bit-without_bit b.v bytes i (omega arith) j,
      over j lo,
      length-set b.v (i / 8) (bit_and (get_or b.v (i / 8) 0) (bit_xor (2 ^ (i % 8)) 0xff)),
    );
  }
