-- ===== src/Array/Ops.antt =====
-- Each operation of the array on the list that it holds.
use mathlib.Core.Path.{subst}
use cs350_os.Base.{
  ℕ, ◌≤◌, ◌<◌, ◌≡◌, ◌+◌, ◌*◌, ◌^◌, done, arith, suc, zero, ◌⊎◌, inl, none, Bool-cases, leb, ltb,
  true, ap, Option-cases, ◌%◌, inr, length, ◌∙◌, some, refl, take, Outcome, List, false, ◌==◌, sym,
  ◌&&◌,
}
use native.Mathlib.Nat.{pow-suc}
use cs350_os.Base.Errno.{enomem}
use cs350_os.Kmalloc.{Kmalloc}
use cs350_os.Array.{Array, array_preallocate, array_setsize, enlarge}
use cs350_os.Array.Inv.{Keeps, words, IsValid, contents, copy_all, take-take}

-- The array still holds what it held, and has room for `n` entries.
pub record Roomy (a : Array) (n : ℕ) (a' : Array) : Type 0 where
  pub valid : IsValid a'
  pub room : n ≤ a'.max
  pub more : a.max ≤ a'.max
  pub num : a'.num ≡ a.num
  pub same : contents a' ≡ contents a

-- The new size reaches `n`, and is near it if it grew at all.
enlarge_lem :
    (fuel max n : ℕ)
    → n < 2 ^ 28
    → n + 2 ≤ (max + 2) * 2 ^ fuel
    → (r : ℕ) × (enlarge (suc fuel) max n ≡ done r)
      × (n ≤ r)
      × (max ≤ r)
      × ((r ≡ max) ⊎ (r < 2 * n + 2))
unfolding enlarge
enlarge_lem zero max n low reach = (max, ground arith, omega arith, omega arith, inl refl)
enlarge_lem (suc fuel) max n low reach = elim (Bool-cases (ltb max n)) [
  | inl less ↦
      let (r, e, enough, grown, bound) =
        enlarge_lem fuel ((max + 1) * 2) n low
          (omega (arith, ap (λ (t : ℕ). (max + 2) * t) (pow-suc 2 fuel))) in
      (r, ground (arith, e), enough, omega arith, inr (ground arith))
  | inr stop ↦ (max, ground arith, ground arith, omega arith, inl refl)
]

module _ (m : Kmalloc) {a : Array} (valid : IsValid a) (low : a.max < 2 ^ 28) where
  open valid use {bounded, sized}

  preallocate_lem :
      (n : ℕ)
      → n < 2 ^ 28
      → ((a' : Array) × (array_preallocate m a n ≡ done (0, a')) × Roomy a n a')
        ⊎ ((bytes : ℕ) × (m.kmalloc bytes ≡ none) × (array_preallocate m a n ≡ done (enomem, a)))
  unfolding array_preallocate
  preallocate_lem n small =
      let (r, grown, enough, more, bound) = enlarge_lem 31 a.max n small (omega arith) in
      let in_order : leb a.num a.max ≡ true = ground arith in
      elim (Option-cases (m.kmalloc (r * 4 % 2 ^ 32))) [
        | inl e ↦ inr (_, e, rw (in_order, grown, e) refl)
        | inr (block, e) ↦
            let long : length block ≡ r = m.block_length _ block e ∙ omega arith in
            let (v, ran, len, copied) = copy_all a block (omega arith) (omega arith) in
            inl (
              record a { max = r; v = some v },
              rw (in_order, grown, e, ran) refl,
              record {
                valid = record { bounded = omega arith; sized = len ∙ long };
                room = enough;
                more = more;
                num = refl;
                same = copied;
              },
            )
      ]

  keep_prefix :
      (n : ℕ) (a' : Array) → a'.num ≡ n → take a.num (words a'.v) ≡ contents a → Keeps a n a'
  keep_prefix n a' size same k hn hk =
      rw size
        (take-take k n (words a'.v) hn ∙ sym (take-take k a.num (words a'.v) hk) ∙ ap (take k) same)

  -- The result of a resize to `n`, within the memory there is or with what the allocator gives.
  abbrev pub Resized : ℕ → Outcome (ℕ × Array) → Type 0
  Resized n r =
      ((a' : Array) × (r ≡ done (0, a')) × IsValid a' × (a'.num ≡ n) × Keeps a n a')
      ⊎ ((bytes : ℕ) × (m.kmalloc bytes ≡ none) × (r ≡ done (enomem, a)))

  grow_to : (n : ℕ) → n < 2 ^ 28 → a.max < n → Resized n (array_setsize m a n)
  unfolding array_setsize
  grow_to n small short = elim (preallocate_lem n small) [
    | inr (bytes, no_mem, ran) ↦ inr (bytes, no_mem, ground (arith, ran))
    | inl (a', ran, roomy) ↦ inl (
      record a' { num = n },
      ground (arith, ran),
      record { bounded = roomy.room; sized = roomy.valid.sized },
      refl,
      keep_prefix n (record a' { num = n }) refl
          (subst (λ k. take k (words a'.v) ≡ contents a) roomy.num roomy.same),
    )
  ]

  block_of : 0 < a.max → (block : List ℕ) × (a.v ≡ some block)
  block_of pos = elim (Option-cases a.v) [
    | inr found ↦ found
    | inl e ↦ absurd (omega (arith, ap (λ v. length (words v)) e))
  ]

  release : 16 < a.max → Resized 0 (array_setsize m a 0)
  unfolding array_setsize
  release big =
      let (block, e) = block_of (omega arith) in
      inl (
        record { num = 0; max = 0; v = none },
        ground (arith, e),
        record { bounded = omega arith; sized = refl },
        refl,
        λ k hn hk.
            let none_left : zero ≡ k = omega arith in
            subst (λ j. take j (take zero (words none)) ≡ take j (contents a)) none_left refl,
      )

  shrink_run :
      (n : ℕ)
      → ltb a.max n ≡ false
      → (n == 0 && ltb 16 a.max) ≡ false
      → array_setsize m a n ≡ done (0, record a { num = n })
  unfolding array_setsize
  shrink_run n e fits = ground arith

  -- `array_setsize` to `n` entries: the array then has `n` entries, and keeps those it had, as far as
  -- both sizes go; or the allocator fails, and ENOMEM is returned and nothing changes.
  pub setsize_resizes : (n : ℕ) → n < 2 ^ 28 → Resized n (array_setsize m a n)
  setsize_resizes n small = elim (Bool-cases (ltb a.max n)) [
    | inl e ↦ grow_to n small (ground arith)
    | inr e ↦ elim (Bool-cases (n == 0 && ltb 16 a.max)) [
      | inl big ↦
          subst (λ k. Resized k (array_setsize m a k)) (ground arith) (release (ground arith))
      | inr fits ↦ inl (
        record a { num = n },
        shrink_run n e fits,
        record { bounded = ground arith; sized = sized },
        refl,
        keep_prefix n (record a { num = n }) refl refl,
      )
    ]
  ]
