-- ===== src/Queue/Add.antt =====
-- `q_addtail` and `q_preallocate`.
use mathlib.Core.List.{append-nil, append_assoc}
use cs350_os.Base.{
  ℕ, arith, List, ◌≡◌, ◌<◌, Outcome, false, true, ◌^◌, length, done, ◌+◌, ◌>>=◌, ◌++◌, ◌∷◌, [], ◌⊎◌,
  none, if◌then◌else◌, sym, ◌≤◌, suc, ◌==◌, Bool-cases, ap, ltb, inr, inl, length-append, ◌∙◌,
  ltb→lt, zero, refl,
}
use cs350_os.Kmalloc.{Kmalloc}
use cs350_os.Queue.{Queue, put, addtail_at, addtail, preallocate, grow, enomem}
use cs350_os.Queue.Inv.{
  IsValid, count, contents, length-contents, full, full_iff, after_put, after_put-IsValid,
  contents-after_put, put_lem, count-lt-size,
}
use cs350_os.Queue.Grow.{Adds, grow_lem}

addtail_at-Adds : (m : Kmalloc) (depth : ℕ) → Adds (addtail_at m depth)
unfolding addtail_at
addtail_at-Adds m zero q x valid h = rw h (ground (arith, put_lem valid m x))
addtail_at-Adds m (suc depth) q x valid h = rw h (ground (arith, put_lem valid m x))

-- Adds a list of pointers one by one, while each call succeeds.
pub add_all : Kmalloc → Queue → List ℕ → Outcome (ℕ × Queue)
unfolding addtail
add_all m q [] = done (0, q)
add_all m q (x ∷ xs) = addtail m q x >>= λ (r, q'). if r == 0 then add_all m q' xs else done (r, q')

module _ (m : Kmalloc) {q : Queue} (valid : IsValid q) where
  open valid use {sized, write_in, read_in}

  pub roomy_add : (x : ℕ) → full q ≡ false → addtail m q x ≡ done (0, after_put valid x)
  unfolding addtail
  roomy_add x h = addtail_at-Adds m 1 q x valid h

  full_add :
      (x : ℕ)
      → full q ≡ true
      → addtail m q x ≡ (
          grow m (addtail_at m 0) q (q.size + 1) >>= λ (r, q').
          if r == 0 then put m q' x else done (r, q'))
  unfolding addtail addtail_at
  full_add x h = rw h (ground arith)

  -- On a valid queue of fewer than 2 ^ 29 slots `q_addtail` either returns 0 and leaves a valid
  -- queue that holds the same and the new pointer at its end, or it returns ENOMEM and changes
  -- nothing; the second only if the queue is full and `kmalloc` fails.
  pub addtail_append :
      (x : ℕ)
      → q.size < 2 ^ 29
      → ((q' : Queue) × (addtail m q x ≡ done (0, q'))
          × IsValid q'
          × (contents q' ≡ contents q ++ (x ∷ [])))
        ⊎ ((bytes : ℕ) × (m.kmalloc bytes ≡ none)
            × (count q + 1 ≡ q.size)
            × (addtail m q x ≡ done (enomem, q)))
  addtail_append x low = elim (Bool-cases (full q)) [
    | inr room ↦ inl (
      after_put valid x,
      roomy_add x room,
      after_put-IsValid valid x,
      contents-after_put valid x room,
    )
    | inl no_room ↦
        elim (grow_lem m (addtail_at m 0) (addtail_at-Adds m 0) valid (q.size + 1) (omega arith)
          (omega arith)) [
            | inl (r, ran, (ok, holds, larger, _)) ↦
                let room : full r ≡ false = ground (
                  arith,
                  full_iff ok,
                  length-contents r,
                  length-contents q,
                  ap length holds,
                  count-lt-size valid,
                ) in
                inl (
                  after_put ok x,
                  full_add x no_room ∙ rw ran (put_lem ok m x),
                  after_put-IsValid ok x,
                  contents-after_put ok x room ∙ ap (λ l. l ++ x ∷ []) holds,
                )
            | inr (bytes, e, ran) ↦
                inr (bytes, e, ground (arith, full_iff valid), full_add x no_room ∙ rw ran)
          ]
  ]

-- A valid queue with room takes pointers with no allocation: each is added, and the size stays.
add_all_room :
    (m : Kmalloc) (xs : List ℕ) {q : Queue} (valid : IsValid q)
    → length (contents q) + length xs < q.size
    → (q' : Queue) × (add_all m q xs ≡ done (0, q')) × IsValid q' × (contents q' ≡ contents q ++ xs)
unfolding add_all
add_all_room m [] {q} valid room = (q, refl, valid, sym (append-nil (contents q)))
add_all_room m (x ∷ xs) {q} valid room =
    let free : full q ≡ false = ground (arith, full_iff valid, length-contents q) in
    let more : contents (after_put valid x) ≡ contents q ++ (x ∷ []) =
      contents-after_put valid x free in
    let (q', ran, ok, holds) =
      add_all_room m xs (after_put-IsValid valid x)
        (omega (arith, ap length more, length-append (contents q) (x ∷ []))) in
    (
      q',
      rw (roomy_add m valid x free) ran,
      ok,
      holds ∙ ap (λ l. l ++ xs) more ∙ append_assoc (contents q) (x ∷ []) xs,
    )

-- The queue `r` holds `held`, and takes `xs` with no failure.
abbrev pub Takes : Kmalloc → List ℕ → List ℕ → Queue → Type 0
Takes later held xs r =
    (contents r ≡ held)
    × ((s : Queue) × (add_all later r xs ≡ done (0, s)) × IsValid s × (contents s ≡ held ++ xs))

Takes-of_room :
    (later : Kmalloc) {r : Queue} (held xs : List ℕ)
    → IsValid r
    → contents r ≡ held
    → length held + length xs < r.size
    → Takes later held xs r
Takes-of_room later held xs ok same room =
    let (s, ran, fine, holds) = add_all_room later xs ok (omega (arith, ap length same)) in
    (same, (s, ran, fine, holds ∙ ap (λ l. l ++ xs) same))

-- After a successful `q_preallocate` of a valid queue for `n` slots, `n` at most 2 ^ 29, the queue
-- holds what it held, and takes any pointers that keep it below `n` in all, in order and with no
-- failure, whatever `kmalloc` answers from then on. The call fails only if `kmalloc` does.
pub preallocate_room :
    (m later : Kmalloc) {q : Queue} (n : ℕ) (xs : List ℕ)
    → IsValid q
    → n ≤ 2 ^ 29
    → length (contents q) + length xs < n
    → ((q' : Queue) × (preallocate m q n ≡ done (0, q')) × Takes later (contents q) xs q')
      ⊎ ((bytes : ℕ) × (m.kmalloc bytes ≡ none) × (preallocate m q n ≡ done (enomem, q)))
unfolding preallocate
preallocate_room m later {q} n xs valid low room = elim (Bool-cases (ltb q.size n)) [
  | inr enough ↦ inl (
    q,
    ground (arith, valid.read_in),
    Takes-of_room later (contents q) xs valid refl (ground (arith, valid.read_in)),
  )
  | inl short ↦
      elim (grow_lem m (addtail_at m 0) (addtail_at-Adds m 0) valid n (ltb→lt _ _ short) low) [
        | inl (r, ran, (ok, holds, larger, _)) ↦ inl (
          r,
          ground (arith, ran, valid.read_in),
          Takes-of_room later (contents q) xs ok holds (omega arith),
        )
        | inr (bytes, e, ran) ↦ inr (bytes, e, ground (arith, ran, valid.read_in))
      ]
]
