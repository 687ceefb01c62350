-- ===== src/Threads/Yield.antt =====
-- Threads that yield to each other take turns.
use mathlib.Core.Path.{ap₂, subst}
use cs350_os.Base.{
  none, some, ℕ, ◌∷◌, [], zero, suc, List, length, Outcome, ◌≢◌, ◌+◌, Option, ◌≡◌, ◌++◌, ◌<◌, done,
  ◌>>=◌, false, ◌∙◌, sym, refl, ne→==, arith, ap, length-append, drop, get_or,
}
use mathlib.Core.List.{append_assoc, append-nil}
use cs350_os.Kmalloc.{Kmalloc}
use cs350_os.Threads.{Threads, thread_yield}
use cs350_os.Threads.Inv.{sleeping, ready}
use cs350_os.Threads.Switch.{switch_ready}
use cs350_os.Queue.Inv.{IsValid, full, full_iff, length-contents}

-- The threads that run, the current one first.
abbrev pub turns : Threads → List ℕ
turns s = s.current ∷ ready s

-- None of the threads is NULL.
abbrev pub AllReal : List ℕ → Type 0
AllReal [] = Unit
AllReal (t ∷ ts) = (t ≢ 0) × AllReal ts

AllReal-append : (xs : List ℕ) (y : ℕ) → AllReal xs → y ≢ 0 → AllReal (xs ++ (y ∷ []))
AllReal-append [] y all real = (real, tt)
AllReal-append (x ∷ xs) y (here, all) real = (here, AllReal-append xs y all real)

-- The run queue is in order and has room for the current thread.
pub record CanYield (s : Threads) : Type 0 where
  pub real : AllReal (turns s)
  pub valid : IsValid s.runqueue
  pub room : length (ready s) + 1 < s.runqueue.size

-- The threads yield `k` times, one after another.
pub yields : Kmalloc → ℕ → Threads → Outcome (Option Threads)
yields m zero s = done (some s)
yields m (suc k) s =
    thread_yield m s >>= λ next. elim next [ none ↦ done none | some s' ↦ yields m k s' ]

uncons : (zs : List ℕ) (y : ℕ) → (x : ℕ) × (xs : List ℕ) × (zs ++ (y ∷ []) ≡ x ∷ xs)
uncons [] y = (y, [], refl)
uncons (z ∷ zs) y = (z, zs ++ (y ∷ []), refl)

module _ (m : Kmalloc) where
  yield_turn :
      (s : Threads)
      → CanYield s
      → (s' : Threads) × (thread_yield m s ≡ done (some s'))
        × (turns s' ≡ ready s ++ (s.current ∷ []))
        × CanYield s'
        × (sleeping s' ≡ sleeping s)
  unfolding thread_yield
  yield_turn s ok =
      let (x, xs, split) = uncons (ready s) s.current in
      let room : full s.runqueue ≡ false =
        full_iff ok.valid ∙ ne→== _ _ (omega (arith, ok.room, length-contents s.runqueue)) in
      let (s', ran, now, rest, still, level, valid', size) =
        switch_ready m (record s { spl = 15 }) x xs ok.real.0 (omega arith) ok.valid room split in
      let turn : turns s' ≡ ready s ++ (s.current ∷ []) =
        ap₂ (λ t ts. t ∷ ts) now rest ∙ sym split in
      (
        s',
        ran,
        turn,
        record {
          real = subst AllReal (sym turn) (AllReal-append (ready s) s.current ok.real.1 ok.real.0);
          valid = valid';
          room =
              omega
                (arith, ok.room, size, ap length turn, length-append (ready s) (s.current ∷ []));
        },
        still,
      )

  yields_rotate :
      (ys zs : List ℕ) (s : Threads)
      → CanYield s
      → turns s ≡ ys ++ zs
      → (s' : Threads) × (yields m (length ys) s ≡ done (some s'))
        × (turns s' ≡ zs ++ ys)
        × (sleeping s' ≡ sleeping s)
  unfolding yields
  yields_rotate [] zs s ok list = (s, refl, list ∙ sym (append-nil zs), refl)
  yields_rotate (y ∷ ys) zs s ok list =
      let (s₁, ran, turn, ok₁, still) = yield_turn s ok in
      let next : turns s₁ ≡ ys ++ (zs ++ (y ∷ [])) =
        turn
        ∙ ap₂ (λ ts t. ts ++ (t ∷ [])) (ap (drop 1) list) (ap (λ l. get_or l 0 0) list)
        ∙ append_assoc ys zs (y ∷ []) in
      let (s', rest, order, still') = yields_rotate ys (zs ++ (y ∷ [])) s₁ ok₁ next in
      (s', rw ran rest, order ∙ append_assoc zs (y ∷ []) ys, still' ∙ still)

-- Let the run queue have room for the current thread, and no thread in it be NULL. Let the threads only
-- yield. Where the current thread and then those in the run queue are `ys` and `zs`, after as many
-- yields as `ys` is long they are `zs` and `ys`; and after as many yields as there are threads, each
-- has had its turn and they are as before. No sleeper wakes.
pub thread_yield_round :
    (m : Kmalloc) (s : Threads) (ys zs : List ℕ)
    → CanYield s
    → turns s ≡ ys ++ zs
    → ((s' : Threads) × (yields m (length ys) s ≡ done (some s'))
        × (turns s' ≡ zs ++ ys)
        × (sleeping s' ≡ sleeping s))
      × ((s' : Threads) × (yields m (length (turns s)) s ≡ done (some s'))
          × (turns s' ≡ turns s)
          × (sleeping s' ≡ sleeping s))
thread_yield_round m s ys zs ok list = (
  yields_rotate m ys zs s ok list,
  yields_rotate m (turns s) [] s ok (sym (append-nil (turns s))),
)
