-- ===== src/Threads/Wake.antt =====
-- `thread_wakeup` and `thread_wakeup_n`.
use cs350_os.Base.{
  ℕ, List, ◌≡◌, ◌==◌, ◌++◌, true, false, length, ◌∷◌, ◌<◌, if◌then◌else◌, [], done, ◌∙◌, arith, ap,
  suc, ltb, Bool-cases, inl, inr, ◌+◌, zero, refl, length-append, Bool, sym, lt→ltb,
}
use mathlib.Core.List.{append_assoc, append-nil}
use cs350_os.Kmalloc.{Kmalloc}
use cs350_os.Threads.{Threads, wake_from, thread_wakeup}
use cs350_os.Threads.Inv.{sleeping, ready, HasRoom, SameBut, length-sleeping, look, wake_one_lem}

-- The threads of a list that sleep on `addr`, and those that do not, in order.
abbrev pub waiting : (ℕ → ℕ) → ℕ → List ℕ → List ℕ
waiting f addr [] = []
waiting f addr (t ∷ ts) = if f t == addr then t ∷ waiting f addr ts else waiting f addr ts

abbrev pub others : (ℕ → ℕ) → ℕ → List ℕ → List ℕ
others f addr [] = []
others f addr (t ∷ ts) = if f t == addr then others f addr ts else t ∷ others f addr ts

-- `s'` is `s` where the threads of `zs` that wait for `addr` have been made runnable, in order, and the
-- sleepers are `ys` and the rest of `zs`.
pub record Woken (f : ℕ → ℕ) (addr : ℕ) (s : Threads) (ys zs : List ℕ) (s' : Threads) : Type 0 where
  pub asleep : sleeping s' ≡ ys ++ others f addr zs
  pub runnable : ready s' ≡ ready s ++ waiting f addr zs
  pub same : SameBut s s'

module _ (m : Kmalloc) (f : ℕ → ℕ) (addr : ℕ) where
  -- The first thread of `z ∷ zs` is woken, and then the rest.
  cons_hit :
      (s s₁ s' : Threads) (ys zs : List ℕ) (z : ℕ)
      → (f z == addr) ≡ true
      → ready s₁ ≡ ready s ++ (z ∷ [])
      → SameBut s s₁
      → Woken f addr s₁ ys zs s'
      → Woken f addr s ys (z ∷ zs) s'
  cons_hit s s₁ s' ys zs z e one frame rest = record {
    asleep = rw e rest.asleep;
    runnable = rw e (
        rest.runnable
        ∙ ap (λ q. q ++ waiting f addr zs) one
        ∙ append_assoc (ready s) (z ∷ []) (waiting f addr zs));
    same =
        rest.same
        ∙ ap {A = Threads} (λ u. record u { sleepers = s'.sleepers; runqueue = s'.runqueue }) frame;
  }

  -- The first thread of `z ∷ zs` is passed over.
  cons_miss :
      (s s' : Threads) (ys zs : List ℕ) (z : ℕ)
      → (f z == addr) ≡ false
      → Woken f addr s (ys ++ (z ∷ [])) zs s'
      → Woken f addr s ys (z ∷ zs) s'
  cons_miss s s' ys zs z e rest = record {
    asleep = rw e (rest.asleep ∙ append_assoc ys (z ∷ []) (others f addr zs));
    runnable = rw e rest.runnable;
    same = rest.same;
  }

  -- At the end of the list, at a thread that waits, and at another one.
  pub at_end :
      (ys : List ℕ) (s : Threads) (k : ℕ)
      → HasRoom s k
      → sleeping s ≡ ys ++ []
      → ltb (length ys) s.sleepers.num ≡ false
  at_end ys s k ok list = ground (arith, length-sleeping ok, ap length list, length-append ys [])

  pub next_index : (ys : List ℕ) (z : ℕ) → length (ys ++ (z ∷ [])) ≡ length ys + 1
  next_index ys z = length-append ys (z ∷ [])

  tested :
      (s : Threads) (z : ℕ) (b : Bool)
      → s.sleepaddr ≡ f
      → (f z == addr) ≡ b
      → (s.sleepaddr z == addr) ≡ b
  tested s z b table e = ap (λ g. g z == addr) table ∙ e

  wake_from-Woken :
      (zs ys : List ℕ) (n : ℕ) (s : Threads)
      → length zs < n
      → s.sleepaddr ≡ f
      → sleeping s ≡ ys ++ zs
      → HasRoom s (length zs)
      → (s' : Threads) × (wake_from m n (length ys) addr s ≡ done s') × Woken f addr s ys zs s'
  unfolding wake_from
  wake_from-Woken zs ys zero s enough table list ok = absurd (omega arith)
  wake_from-Woken [] ys (suc n) s enough table list ok = (
    s,
    rw (at_end ys s zero ok list) refl,
    record { asleep = list; runnable = sym (append-nil (ready s)); same = refl },
  )
  wake_from-Woken (z ∷ zs) ys (suc n) s enough table list ok =
      let (inside, got) = look m ys zs z (length zs) ok list in
      elim (Bool-cases (f z == addr)) [
        | inl e ↦
            let (s₁, ran, ok₁, list₁, one, frame) = wake_one_lem m ys zs z (length zs) ok list in
            let (s', rest, woken) =
              wake_from-Woken zs ys n s₁ (omega arith) (ap (λ u. u.sleepaddr) frame ∙ table) list₁
                ok₁ in
            (
              s',
              rw (inside, got, tested s z true table e, ran) rest,
              cons_hit s s₁ s' ys zs z e one frame woken,
            )
        | inr e ↦
            let ok' : HasRoom s (length zs) = record {
              off = ok.off;
              array = ok.array;
              queue = ok.queue;
              room = omega (arith, ok.room);
            } in
            let (s', rest, woken) =
              wake_from-Woken zs (ys ++ (z ∷ [])) n s (omega arith) table
                (list ∙ sym (append_assoc ys (z ∷ []) zs)) ok' in
            (
              s',
              rw (inside, got, tested s z false table e)
                  (ap (λ i. wake_from m n i addr s) (sym (next_index ys z)) ∙ rest),
              cons_miss s s' ys zs z e woken,
            )
      ]

-- Let interrupts be off and the run queue have room for every sleeper. `thread_wakeup` makes exactly
-- the threads that sleep on `addr` runnable: they join the end of the run queue in the order in which
-- the list of sleepers has them, and the other sleepers keep their order. Nothing else changes.
pub thread_wakeup-Woken :
    (m : Kmalloc) (s : Threads) (addr : ℕ)
    → HasRoom s (length (sleeping s))
    → (s' : Threads) × (thread_wakeup m s addr ≡ done s')
      × (sleeping s' ≡ others s.sleepaddr addr (sleeping s))
      × (ready s' ≡ ready s ++ waiting s.sleepaddr addr (sleeping s))
      × SameBut s s'
unfolding thread_wakeup
thread_wakeup-Woken m s addr ok =
    let (s', ran, woken) =
      wake_from-Woken m s.sleepaddr addr (sleeping s) [] (s.sleepers.num + 1) s
        (omega (arith, length-sleeping ok)) refl refl ok in
    (s', rw (lt→ltb _ _ ok.off) ran, woken.asleep, woken.runnable, woken.same)
