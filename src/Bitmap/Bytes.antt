-- ===== src/Bitmap/Bytes.antt =====
-- The bits of one byte, for the masks that kern/lib/bitmap.c builds. Facts over all bytes are
-- checked value by value.
use Prim.Native.Nat.{bit_and, bit_or, bit_xor}
use cs350_os.Base.{
  ℕ, zero, suc, ◌^◌, ◌<◌, ◌≡◌, refl, Bool, true, false, not, ◌&&◌, ◌||◌, arith, ◌==◌, ltb, ==→eq,
  ltb→lt,
}

-- Is bit `o` of byte `w` set?
abbrev pub test : ℕ → ℕ → Bool
test w o = not (bit_and w (2 ^ o) == 0)

-- Does `q` hold of every number below `k`?
unfoldable pub every : ℕ → (ℕ → Bool) → Bool
every zero q = true
every (suc k) q = q k && every k q

pub every-at : (k : ℕ) (q : ℕ → Bool) (i : ℕ) → every k q ≡ true → i < k → q i ≡ true
unfolding every
every-at zero q i ok below = absurd (omega arith)
every-at (suc k) q i ok below = ground (arith, every-at k q i)

-- Equality of truth values, as a truth value.
abbrev pub same : Bool → Bool → Bool
same true b = b
same false b = not b

pub same→eq : (a b : Bool) → same a b ≡ true → a ≡ b
same→eq a b h = ground arith

abbrev all_triples : (ℕ → ℕ → ℕ → Bool) → Bool
all_triples p = every 256 (λ w. every 8 (λ o. every 8 (p w o)))

all_triples_sound :
    (p : ℕ → ℕ → ℕ → Bool)
    → all_triples p ≡ true
    → (w o q : ℕ) → w < 256
    → o < 8
    → q < 8
    → p w o q ≡ true
all_triples_sound p h w o q hw ho hq =
    every-at 8 (p w o) q (every-at 8 _ o (every-at 256 _ w h hw) ho) hq

or_table : all_triples (λ w o q. same (test (bit_or w (2 ^ o)) q) ((q == o) || test w q)) ≡ true
unfolding every
or_table = refl

-- Setting bit `o` sets that bit and no other.
pub test-or :
    (w o q : ℕ) → w < 256 → o < 8 → q < 8 → test (bit_or w (2 ^ o)) q ≡ ((q == o) || test w q)
test-or w o q hw ho hq = same→eq _ _ (all_triples_sound _ or_table w o q hw ho hq)

and_table :
    all_triples
      (λ w o q. same (test (bit_and w (bit_xor (2 ^ o) 0xff)) q) (not (q == o) && test w q))
    ≡ true
unfolding every
and_table = refl

-- Clearing bit `o` clears that bit and no other.
pub test-and :
    (w o q : ℕ)
    → w < 256
    → o < 8
    → q < 8
    → test (bit_and w (bit_xor (2 ^ o) 0xff)) q ≡ (not (q == o) && test w q)
test-and w o q hw ho hq = same→eq _ _ (all_triples_sound _ and_table w o q hw ho hq)

abbrev all_pairs : (ℕ → ℕ → Bool) → Bool
all_pairs p = every 256 (λ w. every 8 (p w))

all_pairs_sound :
    (p : ℕ → ℕ → Bool) → all_pairs p ≡ true → (w o : ℕ) → w < 256 → o < 8 → p w o ≡ true
all_pairs_sound p h w o hw ho = every-at 8 (p w) o (every-at 256 _ w h hw) ho

or_small : all_pairs (λ w o. ltb (bit_or w (2 ^ o)) 256) ≡ true
unfolding every
or_small = refl

pub or-lt : (w o : ℕ) → w < 256 → o < 8 → bit_or w (2 ^ o) < 256
or-lt w o hw ho = ltb→lt _ _ (all_pairs_sound _ or_small w o hw ho)

and_small : all_pairs (λ w o. ltb (bit_and w (bit_xor (2 ^ o) 0xff)) 256) ≡ true
unfolding every
and_small = refl

pub and-lt : (w o : ℕ) → w < 256 → o < 8 → bit_and w (bit_xor (2 ^ o) 0xff) < 256
and-lt w o hw ho = ltb→lt _ _ (all_pairs_sound _ and_small w o hw ho)

undo_table :
    all_pairs (λ w o. test w o || (bit_and (bit_or w (2 ^ o)) (bit_xor (2 ^ o) 0xff) == w)) ≡ true
unfolding every
undo_table = refl

-- Setting a clear bit and clearing it again gives the byte back.
pub and-or :
    (w o : ℕ)
    → w < 256
    → o < 8
    → test w o ≡ false
    → bit_and (bit_or w (2 ^ o)) (bit_xor (2 ^ o) 0xff) ≡ w
and-or w o hw ho clear = ==→eq _ _ (pick _ _ (all_pairs_sound _ undo_table w o hw ho) clear)
  where
    pick : (a b : Bool) → (a || b) ≡ true → a ≡ false → b ≡ true
    pick a b h e = ground arith

full_table : all_pairs (λ w o. not (w == 0xff) || test w o) ≡ true
unfolding every
full_table = refl

-- In the byte 0xff every bit is set.
pub test_full : (o : ℕ) → o < 8 → test 0xff o ≡ true
test_full o ho = all_pairs_sound _ full_table 0xff o (omega arith) ho

zero_table : every 8 (λ o. not (test 0 o)) ≡ true
unfolding every
zero_table = refl

pub test_zero : (o : ℕ) → o < 8 → test 0 o ≡ false
test_zero o ho = flip (test 0 o) (every-at 8 _ o zero_table ho)
  where
    flip : (b : Bool) → not b ≡ true → b ≡ false
    flip b h = ground arith
