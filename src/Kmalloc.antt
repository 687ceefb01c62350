-- ===== src/Kmalloc.antt =====
-- What a client sees of kern/lib/kheap.c: `kmalloc` returns NULL or a block of the size asked for,
-- whose words hold anything. An operation below makes one such call at most for a buffer, so each
-- operation takes an allocator of its own: one that answers another way later is another value.
use cs350_os.Base.{
  ℕ, ◌/◌, ◌≡◌, Option, none, some, List, length, replicate, length-replicate, arith,
}

pub record Kmalloc : Type 0 where
  pub kmalloc : ℕ → Option (List ℕ)
  pub block_length :
      (bytes : ℕ) (block : List ℕ) → kmalloc bytes ≡ some block → length block ≡ bytes / 4

pub zeros-length :
    (bytes : ℕ) (block : List ℕ)
    → some (replicate (bytes / 4) 0) ≡ some block
    → length block ≡ bytes / 4
zeros-length bytes block e = ground (arith, length-replicate {A = ℕ} (bytes / 4) 0)

-- Memory for every request, and memory for none.
abbrev pub roomy : Kmalloc
roomy = record { kmalloc = λ bytes. some (replicate (bytes / 4) 0); block_length = zeros-length }

pub no_block :
    (bytes : ℕ) (block : List ℕ)
    → ◌≡◌ {A = Option (List ℕ)} none (some block)
    → length block ≡ bytes / 4
no_block bytes block e = cc

abbrev pub exhausted : Kmalloc
exhausted = record { kmalloc = λ bytes. none; block_length = no_block }
