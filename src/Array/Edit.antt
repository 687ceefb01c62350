-- ===== src/Array/Edit.antt =====
-- `array_add`, `array_remove`, `array_getguy` and `array_setguy` on the list that an array holds.
use native.Mathlib.Numerals.{add-one}
use cs350_os.Base.{
  ℕ, ◌<◌, List, ◌^◌, ◌≡◌, some, done, Option-cases, ◌++◌, ◌≤◌, ◌∷◌, panic, inr, [], inl, arith, ◌⊎◌,
  ap, none, length, ◌+◌, sym, ◌∙◌, take, set, length-set, refl, ◌-◌, suc, drop, length-append,
  get_elem?, get_or-set_self, length-take, get_or, length-drop, get_elem?-eq-get_or,
}
use cs350_os.Base.Errno.{enomem}
use cs350_os.Kmalloc.{Kmalloc}
use cs350_os.Array.{Array, array_getguy, array_setguy, array_setsize, array_add, array_remove}
use cs350_os.Array.Inv.{
  Keeps, words, IsValid, contents, remove_at, take-suc-set, take-set, get_elem?-take, take-moved,
  take-take, load_word,
}
use cs350_os.Array.Ops.{setsize_resizes}

-- The block of an array that has room for an entry.
block_of : {a : Array} → IsValid a → 0 < a.max → (block : List ℕ) × (a.v ≡ some block)
block_of {a} valid pos = elim (Option-cases a.v) [
  | inr found ↦ found
  | inl e ↦ absurd (omega (arith, valid.sized, ap (λ v. length (words v)) e))
]

module _ (m : Kmalloc) {a : Array} (valid : IsValid a) where
  open valid use {bounded, sized}

  -- The last of `array_add`'s steps, once there is room.
  add_after :
      (x : ℕ) (a' : Array) (block : List ℕ)
      → a'.v ≡ some block
      → a'.num ≡ a.num + 1
      → a.num < length block
      → Keeps a (a.num + 1) a'
      → take a'.num (set block a.num x) ≡ contents a ++ (x ∷ [])
  add_after x a' block e size room keeps =
      let held : take a.num (words a'.v) ≡ take a.num block = ap (λ v. take a.num (words v)) e in
      let old : take a.num block ≡ contents a =
        sym held
        ∙ sym (take-take a.num a'.num (words a'.v) (omega arith))
        ∙ keeps a.num (omega arith) (omega arith)
        ∙ take-take a.num a.num (words a.v) (omega arith) in
      rw (size, add-one a.num, take-suc-set block a.num x room, old) refl

  add_run :
      (x : ℕ) (a' : Array) (block : List ℕ)
      → array_setsize m a (a.num + 1) ≡ done (0, a')
      → a'.v ≡ some block
      → a.num < length block
      → array_add m a x ≡ done (0, record a' { v = some (set block a.num x) })
  unfolding array_add
  add_run x a' block ran e room = ground (arith, ran, e)

  -- On an array of fewer than 2^27 slots, `array_add` appends its argument to what the array holds, or
  -- the allocator fails, and ENOMEM is returned and nothing changes.
  pub array_add_append :
      (x : ℕ)
      → a.max < 2 ^ 27
      → ((a' : Array) × (array_add m a x ≡ done (0, a'))
          × IsValid a'
          × (contents a' ≡ contents a ++ (x ∷ [])))
        ⊎ ((bytes : ℕ) × (m.kmalloc bytes ≡ none) × (array_add m a x ≡ done (enomem, a)))
  array_add_append x low = elim (setsize_resizes m valid (omega arith) (a.num + 1) (omega arith)) [
    | inr (bytes, no_mem, ran) ↦ inr (bytes, no_mem, unfold array_add in ground (arith, ran))
    | inl (a', ran, valid', size, keeps) ↦
        let (block, e) = block_of valid' (omega (arith, valid'.bounded)) in
        let long : length block ≡ a'.max = ap (λ v. length (words v)) (sym e) ∙ valid'.sized in
        let room : a.num < length block = omega (arith, valid'.bounded) in
        inl (
          record a' { v = some (set block a.num x) },
          add_run x a' block ran e room,
          record { bounded = valid'.bounded; sized = length-set block a.num x ∙ long },
          add_after x a' block e size room keeps,
        )
  ]

module _ {a : Array} (valid : IsValid a) where
  open valid use {bounded, sized}

  -- The block that `array_remove` leaves.
  abbrev moved : List ℕ → ℕ → List ℕ
  moved block i =
      take i block
      ++ (take (a.num - (i + 1)) (drop (i + 1) block) ++ drop (i + (a.num - (i + 1))) block)

  remove_run :
      (i : ℕ) (block : List ℕ)
      → a.v ≡ some block
      → i < a.num
      → array_remove a i ≡ done (record a { num = a.num - 1; v = some (moved block i) })
  unfolding array_remove
  remove_run i block e h =
      let long : length block ≡ a.max = ap (λ v. length (words v)) (sym e) ∙ sized in
      ground (arith, e)

  moved_lem :
      (i k : ℕ) (block : List ℕ)
      → a.num ≡ suc k
      → i ≤ k
      → k < length block
      → take k (moved block i) ≡ remove_at (take (suc k) block) i
  moved_lem i k block size lo hi =
      let count : a.num - (i + 1) ≡ k - i = omega arith in
      let last : i + (k - i) ≡ k = omega arith in
      rw (count, last, add-one i) (take-moved i k block lo hi)

  length-moved :
      (i : ℕ) (block : List ℕ)
      → i < a.num
      → a.num ≤ length block
      → length (moved block i) ≡ length block
  length-moved i block h room =
      let n : ℕ = a.num - (i + 1) in
      let front : List ℕ = take i block in
      let middle : List ℕ = take n (drop (i + 1) block) in
      let back : List ℕ = drop (i + n) block in
      omega (
        arith,
        length-append front (middle ++ back),
        length-append middle back,
        length-take i block,
        length-take n (drop (i + 1) block),
        length-drop (i + 1) block,
        length-drop (i + n) block,
      )

  remove_after :
      (i : ℕ) (block : List ℕ)
      → a.v ≡ some block
      → i < a.num
      → take (a.num - 1) (moved block i) ≡ remove_at (contents a) i
  remove_after i block e h =
      let long : length block ≡ a.max = ap (λ v. length (words v)) (sym e) ∙ sized in
      let size : suc (a.num - 1) ≡ a.num = omega arith in
      moved_lem i (a.num - 1) block (sym size) (omega arith) (omega arith)
      ∙ ap (λ n. remove_at (take n block) i) size
      ∙ ap (λ v. remove_at (take a.num (words v)) i) (sym e)

  remove_bad : (i : ℕ) → a.num ≤ i → array_remove a i ≡ panic
  unfolding array_remove
  remove_bad i h = ground arith

  -- `array_remove` of an index in range removes that entry and keeps the order of the others; of
  -- another index it fails an assertion. `array_getguy` returns the entry at an index in range, and
  -- fails at another.
  pub array_remove-getguy :
      (index : ℕ)
      → (index < a.num
          → (a' : Array) × (array_remove a index ≡ done a')
            × IsValid a'
            × (contents a' ≡ remove_at (contents a) index)
            × ((x : ℕ) × (array_getguy a index ≡ done x) × (get_elem? (contents a) index ≡ some x)))
        × (a.num ≤ index → (array_remove a index ≡ panic) × (array_getguy a index ≡ panic))
  unfolding array_getguy
  array_remove-getguy index = (
    λ h.
        let (block, e) = block_of valid (omega arith) in
        let long : length block ≡ a.max = ap (λ v. length (words v)) (sym e) ∙ sized in
        (
          record a { num = a.num - 1; v = some (moved block index) },
          remove_run index block e h,
          record { bounded = omega arith; sized = length-moved index block h (omega arith) ∙ long },
          remove_after index block e h,
          (
            get_or (words a.v) index 0,
            ground (arith, load_word a.v index (omega arith)),
            get_elem?-take (words a.v) a.num index h
                ∙ get_elem?-eq-get_or (words a.v) index 0 (omega arith),
          ),
        ),
    λ h. (remove_bad index h, ground arith),
  )

  setguy_run :
      (i x : ℕ) (block : List ℕ)
      → a.v ≡ some block
      → i < a.num
      → array_setguy a i x ≡ done (record a { v = some (set block i x) })
  unfolding array_setguy
  setguy_run i x block e h =
      let long : length block ≡ a.max = ap (λ v. length (words v)) (sym e) ∙ sized in
      ground (arith, e)

  -- `array_setguy` of an index in range writes that entry and no other, so that `array_getguy` reads
  -- back what was written.
  pub getguy-setguy :
      (index x : ℕ)
      → index < a.num
      → (a' : Array) × (array_setguy a index x ≡ done a')
        × IsValid a'
        × (contents a' ≡ set (contents a) index x)
        × (array_getguy a' index ≡ done x)
  unfolding array_getguy
  getguy-setguy index x h =
      let (block, e) = block_of valid (omega arith) in
      let long : length block ≡ a.max = ap (λ v. length (words v)) (sym e) ∙ sized in
      let room : index < length (set block index x) = omega (arith, length-set block index x) in
      (
        record a { v = some (set block index x) },
        setguy_run index x block e h,
        record { bounded = bounded; sized = length-set block index x ∙ long },
        take-set block a.num index x h ∙ ap (λ v. set (take a.num (words v)) index x) (sym e),
        ground (
          arith,
          load_word (some (set block index x)) index room,
          get_or-set_self block index x 0 (omega arith),
        ),
      )
