-- ===== src/Sfs/Words.antt =====
-- Numbers in the structures on the disk.
use cs350_os.Base.{ℕ, ◌+◌, ◌*◌, ◌/◌, ◌^◌, ◌<◌, ◌≡◌, arith, ◌==◌, if◌then◌else◌, ◌≢◌}
use cs350_os.Uio.{blit}
use cs350_os.Sfs.{word, set_word, half, set_half}

pub word-set_word :
    (b : ℕ → ℕ) (k v j : ℕ)
    → v < 2 ^ 32
    → word (set_word b k v) j ≡ (if j == k then v else word b j)
unfolding word set_word
word-set_word b k v j h = ground arith

pub half-set_half :
    (b : ℕ → ℕ) (k v j : ℕ)
    → v < 2 ^ 16
    → half (set_half b k v) j ≡ (if j == k then v else half b j)
unfolding half set_half
half-set_half b k v j h = ground arith

pub word-set_half : (b : ℕ → ℕ) (k v j : ℕ) → j ≢ k / 2 → word (set_half b k v) j ≡ word b j
unfolding word set_half
word-set_half b k v j h = ground arith

pub half-set_word : (b : ℕ → ℕ) (k v j : ℕ) → j / 2 ≢ k → half (set_word b k v) j ≡ half b j
unfolding half set_word
half-set_word b k v j h = ground arith

-- A number of a block that has been read.
pub word-blit : (buf src : ℕ → ℕ) (j : ℕ) → j < 128 → word (blit buf 0 src 0 512) j ≡ word src j
unfolding word
word-blit buf src j h = ground arith

pub word-zeros : (b : ℕ → ℕ) (j : ℕ) → ((a : ℕ) → a < 512 → b a ≡ 0) → j < 128 → word b j ≡ 0
unfolding word
word-zeros b j zeros h =
    ground (arith, zeros (4 * j), zeros (4 * j + 1), zeros (4 * j + 2), zeros (4 * j + 3))

pub word-agree :
    (b c : ℕ → ℕ) (j : ℕ) → ((a : ℕ) → a < 512 → b a ≡ c a) → j < 128 → word b j ≡ word c j
unfolding word
word-agree b c j same h =
    ground (arith, same (4 * j), same (4 * j + 1), same (4 * j + 2), same (4 * j + 3))
