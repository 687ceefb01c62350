-- ===== src/Memory/Copy.antt =====
-- `memcpy` copies, where its two regions do not overlap the wrong way.
use cs350_os.Base.{
  ℕ, ◌≡◌, ◌≤◌, ◌+◌, ◌*◌, if◌then◌else◌, ◌⊎◌, leb, ◌&&◌, ltb, ◌-◌, arith, suc, update, ◌∙◌, zero,
  Bool-cases, inl, ◌/◌, inr,
}
use cs350_os.Memory.{copy_word, words_up, bytes_up, memcpy, aligned}

-- The bytes of `m` from `src` on, `len` of them, stand from `dst` on in `r`, and all else is kept.
abbrev pub Copied : (ℕ → ℕ) → ℕ → ℕ → ℕ → (ℕ → ℕ) → Type 0
Copied m dst src len r =
    (a : ℕ) → r a ≡ (if leb dst a && ltb a (dst + len) then m (src + (a - dst)) else m a)

-- A copy from front to back of the region from offset `lo` to offset `hi` reads nothing that it has
-- written.
abbrev pub IsForward : ℕ → ℕ → ℕ → Type 0
IsForward dst src len = (dst ≤ src) ⊎ (src + len ≤ dst)

module _ (dst src : ℕ) where
  bytes_up_lem :
      (n i : ℕ) (m : ℕ → ℕ)
      → IsForward dst src (i + n)
      → (a : ℕ)
      → bytes_up n i m dst src a
        ≡ (if leb (dst + i) a && ltb a (dst + i + n) then m (src + (a - dst)) else m a)
  unfolding bytes_up
  bytes_up_lem zero i m ok a = ground arith
  bytes_up_lem (suc n) i m ok a =
      let m' : ℕ → ℕ = update m (dst + i) (m (src + i)) in
      let ok' : IsForward dst src (i + 1 + n) = ground (arith, ok) in
      let rest = bytes_up_lem n (i + 1) m' ok' a in rest ∙ ground (arith, ok)

  words_up_lem :
      (n i : ℕ) (m : ℕ → ℕ)
      → IsForward dst src (4 * i + 4 * n)
      → (a : ℕ)
      → words_up n i m dst src a
        ≡ (if leb (dst + 4 * i) a && ltb a (dst + 4 * i + 4 * n) then m (src + (a - dst)) else m a)
  unfolding words_up
  words_up_lem zero i m ok a = ground arith
  words_up_lem (suc n) i m ok a =
      let m' : ℕ → ℕ = copy_word m (dst + 4 * i) (src + 4 * i) in
      let ok' : IsForward dst src (4 * (i + 1) + 4 * n) = ground (arith, ok) in
      let rest = words_up_lem n (i + 1) m' ok' a in rest ∙ ground (arith, ok)

-- `memcpy` copies the region if the destination starts at or below the source, or at or above its
-- end, by words or by bytes.
pub memcpy-Copied :
    (m : ℕ → ℕ) (dst src len : ℕ)
    → IsForward dst src len
    → Copied m dst src len (memcpy m dst src len)
unfolding memcpy
memcpy-Copied m dst src len ok a = elim (Bool-cases (aligned dst && (aligned src && aligned len))) [
  | inl e ↦
      let ok' : IsForward dst src (4 * 0 + 4 * (len / 4)) = ground (arith, ok) in
      rw e (ground (arith, words_up_lem dst src (len / 4) 0 m ok' a))
  | inr e ↦
      let ok' : IsForward dst src (0 + len) = ground (arith, ok) in
      rw e (ground (arith, bytes_up_lem dst src len 0 m ok' a))
]
