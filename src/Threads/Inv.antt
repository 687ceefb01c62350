-- ===== src/Threads/Inv.antt =====
-- The invariant of the threads, and what the loops over the sleepers compute.
use cs350_os.Base.{
  ℕ, List, ◌<◌, ◌+◌, length, get_elem?, ◌++◌, ◌≡◌, arith, ◌∷◌, suc, length-take, some, ap, ltb,
  length-append, true, done, [], refl, lt→ltb, false, ◌∙◌, sym, ne→==,
}
use cs350_os.Array.Inv.{remove_at}
use cs350_os.Queue.Inv.{
  count, full, full_iff, after_put-IsValid, contents-after_put, count-after_put, after_put,
}
use cs350_os.Array.Edit.{array_remove-getguy}
use cs350_os.Queue.Add.{roomy_add}
use cs350_os.Threads.{Threads, Kmalloc, wake_one, array_getguy}
use mathlib.Core.Option.{some-injective}
use cs350_os.Array.Inv as ArrayInv
use cs350_os.Queue.Inv as QueueInv

-- The sleeping threads, and those that are ready.
abbrev pub sleeping : Threads → List ℕ
sleeping s = ArrayInv.contents s.sleepers

abbrev pub ready : Threads → List ℕ
ready s = QueueInv.contents s.runqueue

-- Interrupts are off, and the run queue has room for `n` more threads.
pub record HasRoom (s : Threads) (n : ℕ) : Type 0 where
  pub off : 0 < s.spl
  pub array : ArrayInv.IsValid s.sleepers
  pub queue : QueueInv.IsValid s.runqueue
  pub room : count s.runqueue + n < s.runqueue.size

pub length-sleeping : {s : Threads} {n : ℕ} → HasRoom s n → length (sleeping s) ≡ s.sleepers.num
length-sleeping {s} ok = omega (
  arith,
  length-take s.sleepers.num (ArrayInv.words s.sleepers.v),
  ok.array.bounded,
  ok.array.sized,
)

module _ (z : ℕ) (zs : List ℕ) where
  pub get_elem?-append : (ys : List ℕ) → get_elem? (ys ++ (z ∷ zs)) (length ys) ≡ some z
  get_elem?-append [] = refl
  get_elem?-append (y ∷ ys) = get_elem?-append ys

  pub remove_at-append : (ys : List ℕ) → remove_at (ys ++ (z ∷ zs)) (length ys) ≡ ys ++ zs
  remove_at-append [] = refl
  remove_at-append (y ∷ ys) = ap (λ xs. y ∷ xs) (remove_at-append ys)

-- `s'` is `s` with other sleepers and another run queue.
abbrev pub SameBut : Threads → Threads → Type 0
SameBut s s' = s' ≡ record s { sleepers = s'.sleepers; runqueue = s'.runqueue }

module _ (m : Kmalloc) {s : Threads} (ys zs : List ℕ) (z n : ℕ) (ok : HasRoom s (suc n))
    (list : sleeping s ≡ ys ++ (z ∷ zs)) where
  in_range : length ys < s.sleepers.num
  in_range = omega (arith, length-sleeping ok, ap length list, length-append ys (z ∷ zs))

  pub look :
      (ltb (length ys) s.sleepers.num ≡ true) × (array_getguy s.sleepers (length ys) ≡ done z)
  look =
      let (_, _, _, _, (x, got, at)) = (array_remove-getguy ok.array (length ys)).0 in_range in
      (
        lt→ltb _ _ in_range,
        got
            ∙ ap done (
                some-injective _ _
                  (sym at ∙ ap (λ xs. get_elem? xs (length ys)) list ∙ get_elem?-append z zs ys)),
      )

  pub wake_one_lem :
      (s' : Threads) × (wake_one m s (length ys) z ≡ done s')
      × HasRoom s' n
      × (sleeping s' ≡ ys ++ zs)
      × (ready s' ≡ ready s ++ (z ∷ []))
      × SameBut s s'
  unfolding wake_one
  wake_one_lem =
      let (a, ran, valid, rest, _) = (array_remove-getguy ok.array (length ys)).0 in_range in
      let room : full s.runqueue ≡ false = full_iff ok.queue ∙ ne→== _ _ (omega (arith, ok.room)) in
      (
        record s { sleepers = a; runqueue = after_put ok.queue z },
        rw (ran, lt→ltb _ _ ok.off, roomy_add m ok.queue z room) refl,
        record {
          off = ok.off;
          array = valid;
          queue = after_put-IsValid ok.queue z;
          room = omega (arith, ok.room, count-after_put ok.queue z room);
        },
        rest ∙ ap (λ xs. remove_at xs (length ys)) list ∙ remove_at-append z zs ys,
        contents-after_put ok.queue z room,
        refl,
      )
