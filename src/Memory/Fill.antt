-- ===== src/Memory/Fill.antt =====
-- `memset` and `bzero`.
use mathlib.Core.Path.{fun_ext}
use cs350_os.Base.{
  ℕ, ◌≡◌, ◌%◌, if◌then◌else◌, leb, Bool-cases, ◌&&◌, ◌+◌, ltb, ◌*◌, inl, arith, ◌/◌, ◌∙◌, suc,
  update, zero, inr, refl,
}
use cs350_os.Memory.{fill, memset, clear_word, clear_words, bzero, aligned}

-- `len` bytes from `p` on are `ch` in `r`, and all else is as in `m`.
abbrev pub Filled : (ℕ → ℕ) → ℕ → ℕ → ℕ → (ℕ → ℕ) → Type 0
Filled m p ch len r = (a : ℕ) → r a ≡ (if leb p a && ltb a (p + len) then ch else m a)

fill_lem :
    (n i : ℕ) (m : ℕ → ℕ) (p ch a : ℕ)
    → fill n i m p ch a ≡ (if leb (p + i) a && ltb a (p + i + n) then ch else m a)
unfolding fill
fill_lem zero i m p ch a = ground arith
fill_lem (suc n) i m p ch a = fill_lem n (i + 1) (update m (p + i) ch) p ch a ∙ ground arith

clear_words_lem :
    (n i : ℕ) (m : ℕ → ℕ) (p a : ℕ)
    → clear_words n i m p a ≡ (if leb (p + 4 * i) a && ltb a (p + 4 * i + 4 * n) then 0 else m a)
unfolding clear_words
clear_words_lem zero i m p a = ground arith
clear_words_lem (suc n) i m p a =
    clear_words_lem n (i + 1) (clear_word m (p + 4 * i)) p a ∙ ground arith

fill-Filled : (len : ℕ) (m : ℕ → ℕ) (p ch : ℕ) → Filled m p ch len (fill len 0 m p ch)
fill-Filled len m p ch a = ground (arith, fill_lem len 0 m p ch a)

-- `bzero`, by words or by bytes, is `memset` to 0, and `memset` sets each of its `len` bytes to the low
-- byte of `ch` and changes nothing else.
pub bzero-memset :
    (m : ℕ → ℕ) (p ch len : ℕ)
    → Filled m p (ch % 256) len (memset m p ch len) × (bzero m p len ≡ memset m p 0 len)
unfolding memset bzero
bzero-memset m p ch len = (
  fill-Filled len m p (ch % 256),
  fun_ext (λ a. (elim (Bool-cases (aligned p && aligned len)) [
    | inl e ↦ rw e (ground (arith, clear_words_lem (len / 4) 0 m p a, fill-Filled len m p 0 a))
    | inr e ↦ rw e refl
  ])),
)
