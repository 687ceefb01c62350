-- ===== src/Queue/Grow.antt =====
-- `q_grow`: a larger buffer with the same contents.
use native.Mathlib.Nat.{pow-suc}
use mathlib.Core.List.{append_assoc, append-nil}
use cs350_os.Base.{
  none, Option-cases, ◌>>=◌, ◌⊎◌, inl, inr, ◌^◌, ◌*◌, ℕ, zero, suc, ◌+◌, ◌%◌, ◌<◌, ◌≤◌, ◌≡◌, refl,
  List, [], ◌∷◌, ◌++◌, length, get_or, get_elem?-eq-get_or, arith, ltb, ap, false, Outcome, done,
  ◌∙◌, sym, Bool-cases,
}
use cs350_os.Base.Errno.{enomem}
use cs350_os.Kmalloc.{Kmalloc}
use cs350_os.Queue.{Queue, fit, copy, grow}
use cs350_os.Queue.Window.{window, next_slot, slot_after}
use cs350_os.Queue.Inv.{
  IsValid, count, contents, full, full_iff, after_put, after_put-IsValid, count-after_put,
  contents-after_put,
}

-- The doubled size reaches the target, and is below twice the target if it was doubled at all.
fit_lem :
    (fuel nsize target : ℕ)
    → 0 < nsize
    → target ≤ 2 ^ 30
    → target ≤ nsize * 2 ^ fuel
    → (n : ℕ) × (fit (suc fuel) nsize target ≡ done n)
      × (target ≤ n)
      × (nsize ≤ n)
      × ((n ≡ nsize) ⊎ (n < 2 * target))
unfolding fit
fit_lem zero nsize target pos low reach = (nsize, ground arith, omega arith, omega arith, inl refl)
fit_lem (suc fuel) nsize target pos low reach = elim (Bool-cases (ltb nsize target)) [
  | inl less ↦
      let (n, e, enough, grown, bound) =
        fit_lem fuel (nsize * 2) target (omega arith) low
          (omega (arith, ap (λ (t : ℕ). nsize * t) (pow-suc 2 fuel))) in
      (n, ground (arith, e), enough, omega arith, inr (ground arith))
  | inr stop ↦ (nsize, ground arith, ground arith, omega arith, inl refl)
]

-- What a call of `q_addtail` does on a queue that has room.
abbrev pub Adds : (Queue → ℕ → Outcome (ℕ × Queue)) → Type 0
Adds add =
    (q : Queue) (x : ℕ) (valid : IsValid q) → full q ≡ false → add q x ≡ done (0, after_put valid x)

module _ (add : Queue → ℕ → Outcome (ℕ × Queue)) (adds : Adds add) (old : List ℕ) (osize onw : ℕ)
    (len : length old ≡ osize) where
  -- With `k` slots to go, room for them and enough rounds, the loop appends what is in the slots.
  copy_lem :
      (fuel k i : ℕ) (q : Queue)
      → IsValid q
      → i < osize
      → k < osize
      → onw ≡ slot_after osize i k
      → k < fuel
      → count q + k < q.size
      → (r : Queue) × (copy add old osize onw fuel i q ≡ done r)
        × IsValid r
        × (contents r ≡ contents q ++ window old osize i k)
        × (r.size ≡ q.size)
  unfolding copy
  copy_lem zero k i q valid hi hk e lt room = elim lt [ ]
  copy_lem (suc fuel) zero i q valid hi hk e lt room =
      (q, ground arith, valid, sym (append-nil (contents q)), refl)
  copy_lem (suc fuel) (suc k) i q valid hi hk e lt room =
      let x : ℕ = get_or old i 0 in
      let not_full : full q ≡ false = ground (arith, full_iff valid) in
      let (r, ran, ok, holds, size) =
        copy_lem fuel k ((i + 1) % osize) (after_put valid x) (after_put-IsValid valid x)
          (omega arith) (omega arith) (ground (arith, next_slot osize i hi)) (omega arith)
          (omega (arith, count-after_put valid x not_full)) in
      (
        r,
        ground (arith, get_elem?-eq-get_or old i 0, adds q x valid not_full, ran),
        ok,
        holds
            ∙ ap (λ l. l ++ window old osize ((i + 1) % osize) k)
                (contents-after_put valid x not_full)
            ∙ append_assoc (contents q) (x ∷ []) (window old osize ((i + 1) % osize) k),
        size,
      )

module _ (m : Kmalloc) (add : Queue → ℕ → Outcome (ℕ × Queue)) (adds : Adds add) {q : Queue}
    (valid : IsValid q) (target : ℕ) (larger : q.size < target) (low : target ≤ 2 ^ 29) where
  open valid use {sized, write_in, read_in}

  abbrev pub Grown : Queue → Type 0
  Grown r = IsValid r × (contents r ≡ contents q) × (target ≤ r.size) × (r.size < 2 * target)

  grow_into :
      (n : ℕ) (block : List ℕ)
      → target ≤ n
      → length block ≡ n
      → (r : Queue) × (copy add q.slots q.size q.nextwrite q.size q.nextread
            (record { size = n; nextwrite = 0; nextread = 0; slots = block })
          ≡ done r)
        × IsValid r
        × (contents r ≡ contents q)
        × (r.size ≡ n)
  grow_into n block enough len =
      copy_lem add adds q.slots q.size q.nextwrite sized q.size (count q) q.nextread
        (record { size = n; nextwrite = 0; nextread = 0; slots = block })
        (record { sized = len; write_in = omega arith; read_in = omega arith }) read_in
        (ground arith) (ground arith) (ground arith) (ground arith)

  -- With memory the queue is replaced by a larger one that holds the same; without, nothing
  -- changes.
  pub grow_lem :
      ((r : Queue) × (grow m add q target ≡ done (0, r)) × Grown r)
      ⊎ ((bytes : ℕ) × (m.kmalloc bytes ≡ none) × (grow m add q target ≡ done (enomem, q)))
  unfolding grow
  grow_lem =
      let (n, fits, enough, _, bound) =
        fit_lem 31 q.size target (omega arith) (omega arith) (omega arith) in
      elim (Option-cases (m.kmalloc (n * 4 % 2 ^ 32))) [
        | inl e ↦ inr (_, e, rw (fits, ◌>>=◌, e) refl)
        | inr (block, e) ↦
            let (r, ran, ok, holds, size) =
              grow_into n block enough (m.block_length _ block e ∙ ground arith) in
            inl (r, ground (arith, fits, e, ran), (ok, holds, omega arith, ground arith))
      ]
