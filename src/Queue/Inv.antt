-- ===== src/Queue/Inv.antt =====
-- The invariant of `struct queue`, and the list that a queue holds.
use cs350_os.Base.{
  ℕ, ◌+◌, ◌-◌, ◌%◌, ◌<◌, ◌≡◌, List, [], ◌∷◌, ◌++◌, length, set, length-set, arith, if◌then◌else◌,
  leb, ◌==◌, ap, Bool, false, done, ◌∙◌,
}
use native.Mathlib.Numerals.{add-one}
use cs350_os.Kmalloc.{Kmalloc}
use cs350_os.Queue.{Queue, put, empty}
use cs350_os.Queue.Window.{window, length-window, next_slot, window-set}

pub record IsValid (q : Queue) : Type 0 where
  pub sized : length q.slots ≡ q.size
  pub write_in : q.nextwrite < q.size
  pub read_in : q.nextread < q.size

-- How many slots are in use.
abbrev pub count : Queue → ℕ
count q =
    if leb q.nextread q.nextwrite
    then q.nextwrite - q.nextread
    else q.nextwrite + q.size - q.nextread

-- What the queue holds, from the head on.
abbrev pub contents : Queue → List ℕ
contents q = window q.slots q.size q.nextread (count q)

pub length-contents : (q : Queue) → length (contents q) ≡ count q
length-contents q = length-window q.slots q.size q.nextread (count q)

-- One slot is never used: the queue is full when the next write would meet the next read.
abbrev pub full : Queue → Bool
full q = (q.nextwrite + 1) % q.size == q.nextread

module _ {q : Queue} (valid : IsValid q) where
  open valid use {sized, write_in, read_in}

  pub count-lt-size : count q < q.size
  count-lt-size = ground arith

  pub full_iff : full q ≡ (count q + 1 == q.size)
  full_iff = ground (arith, next_slot q.size q.nextwrite)

  pub empty_iff : empty q ≡ (count q == 0)
  unfolding empty
  empty_iff = ground arith

  abbrev pub after_put : ℕ → Queue
  after_put x = record q {
    slots = set q.slots q.nextwrite x;
    nextwrite = (q.nextwrite + 1) % q.size;
  }

  pub put_lem : (m : Kmalloc) (x : ℕ) → put m q x ≡ done (0, after_put x)
  unfolding put
  put_lem m x = ground arith

  pub after_put-IsValid : (x : ℕ) → IsValid (after_put x)
  after_put-IsValid x = record {
    sized = length-set q.slots q.nextwrite x ∙ sized;
    write_in = omega arith;
    read_in = read_in;
  }

  pub count-after_put : (x : ℕ) → full q ≡ false → count (after_put x) ≡ count q + 1
  count-after_put x h = ground (arith, next_slot q.size q.nextwrite)

  pub contents-after_put :
      (x : ℕ) → full q ≡ false → contents (after_put x) ≡ contents q ++ (x ∷ [])
  contents-after_put x h =
      ap (window (set q.slots q.nextwrite x) q.size q.nextread)
        (count-after_put x h ∙ add-one (count q))
      ∙ window-set q.slots q.size x (count q) q.nextread q.nextwrite sized read_in count-lt-size
          (ground arith)
