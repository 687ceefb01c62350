-- ===== src/Memory/Move.antt =====
-- `memmove` copies, however its two regions overlap.
use cs350_os.Base.{
  ℕ, ◌≤◌, Bool-cases, arith, ◌*◌, ltb, suc, inl, update, ◌+◌, inr, ◌∙◌, ◌&&◌, zero, ◌/◌,
}
use cs350_os.Memory.{copy_word, words_down, bytes_down, memmove, aligned}
use cs350_os.Memory.Copy.{Copied, memcpy-Copied}

module _ (dst src : ℕ) (above : src ≤ dst) where
  bytes_down-Copied : (i : ℕ) (m : ℕ → ℕ) → Copied m dst src i (bytes_down i m dst src)
  unfolding bytes_down
  bytes_down-Copied zero m a = ground arith
  bytes_down-Copied (suc i) m a =
      bytes_down-Copied i (update m (dst + i) (m (src + i))) a ∙ ground arith

  words_down-Copied : (i : ℕ) (m : ℕ → ℕ) → Copied m dst src (4 * i) (words_down i m dst src)
  unfolding words_down
  words_down-Copied zero m a = ground arith
  words_down-Copied (suc i) m a =
      words_down-Copied i (copy_word m (dst + 4 * i) (src + 4 * i)) a ∙ ground arith

-- Whether or not its regions overlap, and whether it copies by words or by bytes, `memmove` leaves at
-- the destination the `len` bytes that the source held before the call, and changes nothing else.
pub memmove-Copied : (m : ℕ → ℕ) (dst src len : ℕ) → Copied m dst src len (memmove m dst src len)
unfolding memmove
memmove-Copied m dst src len a = elim (Bool-cases (ltb dst src)) [
  | inl e ↦ rw e (memcpy-Copied m dst src len (inl (ground arith)) a)
  | inr e ↦
      let above : src ≤ dst = ground arith in
      elim (Bool-cases (aligned dst && (aligned src && aligned len))) [
        | inl w ↦ rw (e, w) (ground (arith, words_down-Copied dst src above (len / 4) m a))
        | inr w ↦ rw (e, w) (bytes_down-Copied dst src above len m a)
      ]
]
