-- ===== src/Queue/Tests.antt =====
-- kern/lib/queue.c on a small queue that grows, and the theorems at it.
use cs350_os.Base.{ℕ, ◌∷◌, ◌≡◌, arith, [], done, true, ◌⊎◌, refl, panic, none, List, ◌+◌, false}
use cs350_os.Kmalloc.{roomy, exhausted}
use cs350_os.Queue.{Queue, addtail, remhead, empty, destroy, enomem}
use cs350_os.Queue.Inv.{IsValid, count, contents}
use cs350_os.Queue.Remove.{remhead_refines}
use cs350_os.Queue.Add.{addtail_append}

-- Four slots, of which the three in use go round the end.
abbrev wrapped : Queue
wrapped = record { size = 4; nextwrite = 1; nextread = 2; slots = 7 ∷ 0 ∷ 5 ∷ 6 ∷ [] }

contents-wrapped : contents wrapped ≡ 5 ∷ 6 ∷ 7 ∷ []
contents-wrapped = refl

addtail_grows :
    addtail roomy wrapped 8
    ≡ done (
      0,
      record { size = 8; nextwrite = 4; nextread = 0; slots = 5 ∷ 6 ∷ 7 ∷ 8 ∷ 0 ∷ 0 ∷ 0 ∷ 0 ∷ [] },
    )
unfolding addtail
addtail_grows = refl

addtail_without_memory : addtail exhausted wrapped 8 ≡ done (enomem, wrapped)
unfolding addtail
addtail_without_memory = refl

remhead-wrapped : remhead wrapped ≡ done (5, record wrapped { nextread = 3 })
unfolding remhead
remhead-wrapped = refl

wrapped-IsValid : IsValid wrapped
wrapped-IsValid = omega arith

remhead_refines_example :
    (contents wrapped ≡ []
      → (empty wrapped ≡ true) × (remhead wrapped ≡ panic) × (destroy wrapped ≡ done tt))
    × ((x : ℕ) (xs : List ℕ)
        → contents wrapped ≡ x ∷ xs
        → (q' : Queue) × (remhead wrapped ≡ done (x, q'))
          × IsValid q'
          × (contents q' ≡ xs)
          × (q'.size ≡ 4)
          × (empty wrapped ≡ false)
          × (destroy wrapped ≡ panic))
remhead_refines_example = remhead_refines wrapped-IsValid

addtail_append_example :
    ((q' : Queue) × (addtail roomy wrapped 8 ≡ done (0, q'))
      × IsValid q'
      × (contents q' ≡ 5 ∷ 6 ∷ 7 ∷ 8 ∷ []))
    ⊎ ((bytes : ℕ) × (roomy.kmalloc bytes ≡ none)
        × (count wrapped + 1 ≡ 4)
        × (addtail roomy wrapped 8 ≡ done (enomem, wrapped)))
addtail_append_example = addtail_append roomy wrapped-IsValid 8 (omega arith)
