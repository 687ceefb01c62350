-- ===== src/Queue/Remove.antt =====
-- `q_remhead` and `q_empty`.
use cs350_os.Base.{
  ℕ, zero, suc, ◌+◌, ◌-◌, ◌%◌, ◌<◌, ◌≡◌, refl, List, [], ◌∷◌, length, get_or, get_elem?-eq-get_or,
  arith, ap, true, false, done, panic, ◌∙◌, sym,
}
use cs350_os.Queue.{Queue, remhead, empty, destroy}
use cs350_os.Queue.Window.{window, next_slot}
use cs350_os.Queue.Inv.{IsValid, count, contents, length-contents, empty_iff}

window_pos :
    (slots : List ℕ) (size h n : ℕ)
    → 0 < n
    → window slots size h n ≡ get_or slots h 0 ∷ window slots size ((h + 1) % size) (n - 1)
window_pos slots size h zero p = elim p [ ]
window_pos slots size h (suc n) p = ap (λ k. window slots size h (suc k)) (omega arith)

module _ {q : Queue} (valid : IsValid q) where
  open valid use {sized, write_in, read_in}

  abbrev after_remove : Queue
  after_remove = record q { nextread = (q.nextread + 1) % q.size }

  after_remove-IsValid : IsValid after_remove
  after_remove-IsValid = record { sized = sized; write_in = write_in; read_in = omega arith }

  count-after_remove : 0 < count q → count after_remove ≡ count q - 1
  count-after_remove h = ground (arith, next_slot q.size q.nextread)

  contents_pos : 0 < count q → contents q ≡ get_or q.slots q.nextread 0 ∷ contents after_remove
  contents_pos h =
      window_pos q.slots q.size q.nextread (count q) h
      ∙ ap (λ n. get_or q.slots q.nextread 0 ∷ window q.slots q.size ((q.nextread + 1) % q.size) n)
          (sym (count-after_remove h))

  remhead_pos : 0 < count q → remhead q ≡ done (get_or q.slots q.nextread 0, after_remove)
  unfolding remhead
  remhead_pos h = ground (arith, get_elem?-eq-get_or q.slots q.nextread 0)

  -- On a valid queue `q_empty` says whether the queue holds nothing; then `q_remhead` fails its
  -- assertion and `q_destroy` passes its own. If the queue holds `x` and then `xs`, `q_destroy`
  -- fails, and `q_remhead` returns `x` and leaves a valid queue of the same size that holds `xs`.
  pub remhead_refines :
      (contents q ≡ [] → (empty q ≡ true) × (remhead q ≡ panic) × (destroy q ≡ done tt))
      × ((x : ℕ) (xs : List ℕ)
          → contents q ≡ x ∷ xs
          → (q' : Queue) × (remhead q ≡ done (x, q'))
            × IsValid q'
            × (contents q' ≡ xs)
            × (q'.size ≡ q.size)
            × (empty q ≡ false)
            × (destroy q ≡ panic))
  unfolding destroy
  remhead_refines = (
    λ e.
        let none_left : count q ≡ 0 = sym (length-contents q) ∙ ap length e in
        (
          ground (arith, empty_iff valid),
          unfold remhead in ground arith,
          ground (arith, empty_iff valid),
        ),
    λ x xs e.
        let some_left : 0 < count q = omega (arith, length-contents q, ap length e) in
        let split : x ∷ xs ≡ get_or q.slots q.nextread 0 ∷ contents after_remove =
          sym e ∙ contents_pos some_left in
        (
          after_remove,
          ground (arith, remhead_pos some_left, split),
          after_remove-IsValid,
          ground (arith, split),
          refl,
          ground (arith, empty_iff valid),
          ground (arith, empty_iff valid),
        ),
  )
