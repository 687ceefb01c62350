-- ===== src/Memory.antt =====
-- lib/libc/memcpy.c, memmove.c, memset.c, bzero.c and memcmp.c, which the kernel shares with user
-- programs. Memory is a function from addresses to bytes; a `long` is four bytes. Regions that roll
-- over the top of memory are left out, as the comment in memmove.c does.
pub mod Copy
pub mod Move
pub mod Fill
pub mod Compare
mod Tests
use cs350_os.Base.{
  ℕ, if◌then◌else◌, Bool, ◌%◌, suc, leb, ◌==◌, ◌+◌, ◌&&◌, update, ltb, ◌-◌, ◌*◌, ◌/◌, ◌^◌, zero,
}

-- `*(long *)d = *(long *)s`: four bytes are read, then written.
abbrev pub copy_word : (ℕ → ℕ) → ℕ → ℕ → ℕ → ℕ
copy_word m d s a = if leb d a && ltb a (d + 4) then m (s + (a - d)) else m a

abbrev pub aligned : ℕ → Bool
aligned x = x % 4 == 0

-- The loops of `memcpy`, with `n` rounds left from round `i` on.
pub words_up : ℕ → ℕ → (ℕ → ℕ) → ℕ → ℕ → ℕ → ℕ
words_up zero i m dst src = m
words_up (suc n) i m dst src = words_up n (i + 1) (copy_word m (dst + 4 * i) (src + 4 * i)) dst src

pub bytes_up : ℕ → ℕ → (ℕ → ℕ) → ℕ → ℕ → ℕ → ℕ
bytes_up zero i m dst src = m
bytes_up (suc n) i m dst src = bytes_up n (i + 1) (update m (dst + i) (m (src + i))) dst src

pub memcpy : (ℕ → ℕ) → ℕ → ℕ → ℕ → ℕ → ℕ
memcpy m dst src len =
    if aligned dst && (aligned src && aligned len)
    then words_up (len / 4) 0 m dst src
    else bytes_up len 0 m dst src

-- The loops of `memmove`, for `i` down to 1.
pub words_down : ℕ → (ℕ → ℕ) → ℕ → ℕ → ℕ → ℕ
words_down zero m dst src = m
words_down (suc i) m dst src = words_down i (copy_word m (dst + 4 * i) (src + 4 * i)) dst src

pub bytes_down : ℕ → (ℕ → ℕ) → ℕ → ℕ → ℕ → ℕ
bytes_down zero m dst src = m
bytes_down (suc i) m dst src = bytes_down i (update m (dst + i) (m (src + i))) dst src

pub memmove : (ℕ → ℕ) → ℕ → ℕ → ℕ → ℕ → ℕ
memmove m dst src len =
    if ltb dst src
    then memcpy m dst src len
    else if aligned dst && (aligned src && aligned len)
    then words_down (len / 4) m dst src
    else bytes_down len m dst src

-- The loop of `memset`, and that of `bzero` by bytes.
pub fill : ℕ → ℕ → (ℕ → ℕ) → ℕ → ℕ → ℕ → ℕ
fill zero i m p ch = m
fill (suc n) i m p ch = fill n (i + 1) (update m (p + i) ch) p ch

-- `memset`: `ch` is stored in a `char`.
pub memset : (ℕ → ℕ) → ℕ → ℕ → ℕ → ℕ → ℕ
memset m p ch len = fill len 0 m p (ch % 256)

abbrev pub clear_word : (ℕ → ℕ) → ℕ → ℕ → ℕ
clear_word m p a = if leb p a && ltb a (p + 4) then 0 else m a

pub clear_words : ℕ → ℕ → (ℕ → ℕ) → ℕ → ℕ → ℕ
clear_words zero i m p = m
clear_words (suc n) i m p = clear_words n (i + 1) (clear_word m (p + 4 * i)) p

pub bzero : (ℕ → ℕ) → ℕ → ℕ → ℕ → ℕ
bzero m p len = if aligned p && aligned len then clear_words (len / 4) 0 m p else fill len 0 m p 0

-- `memcmp`, with `n` rounds left: 0, or the difference of two bytes in a register.
pub compare_from : ℕ → ℕ → (ℕ → ℕ) → ℕ → ℕ → ℕ
compare_from zero i m a b = 0
compare_from (suc n) i m a b =
    let rest = compare_from n (i + 1) m a b in
    if m (a + i) == m (b + i) then rest else (m (a + i) + 2 ^ 32 - m (b + i)) % 2 ^ 32

pub memcmp : (ℕ → ℕ) → ℕ → ℕ → ℕ → ℕ
memcmp m a b len = compare_from len 0 m a b
