-- ===== src/Queue.antt =====
-- kern/lib/queue.c: a queue of pointers in a ring buffer that grows.
pub mod Window
pub mod Inv
pub mod Remove
pub mod Grow
pub mod Add
mod Tests
use cs350_os.Base.{
  ℕ, zero, suc, ◌+◌, ◌*◌, ◌%◌, ◌^◌, ◌<◌, ◌≤◌, Bool, true, false, not, ◌&&◌, none, some, Option,
  List, Outcome, done, panic, ◌>>=◌, ◌>>◌, assert, load, store, ltb, leb, ◌==◌, if◌then◌else◌,
}
use cs350_os.Base.Errno.{enomem}
use cs350_os.Kmalloc.{Kmalloc}

-- `struct queue`, with `slots` for `data`. The numbers are ints that are never negative; a `void *` is its address.
pub record Queue : Type 0 where
  pub size : ℕ
  pub nextwrite : ℕ
  pub nextread : ℕ
  pub slots : List ℕ

-- The first loop of `q_grow`. Past 2 ^ 30 the doubled int is negative and the assertion fails, so
-- 32 rounds cover every run.
fit : ℕ → ℕ → ℕ → Outcome ℕ
fit zero nsize target = panic
fit (suc fuel) nsize target =
    let more =
      assert (ltb 0 (nsize * 2) && ltb (nsize * 2) (2 ^ 31)) >> fit fuel (nsize * 2) target in
    if ltb nsize target then more else done nsize

-- The second loop of `q_grow`, given `q_addtail`: `for (i=onr; i!=onw; i = (i+1)%osize)`.
copy : (Queue → ℕ → Outcome (ℕ × Queue)) → List ℕ → ℕ → ℕ → ℕ → ℕ → Queue → Outcome Queue
copy add olddata osize onw zero i q = panic
copy add olddata osize onw (suc fuel) i q =
    let round = load olddata i >>= λ ptr. add q ptr >>= λ (result, q').
    assert (result == 0) >> copy add olddata osize onw fuel ((i + 1) % osize) q' in
    if i == onw then done q else round

module _ (m : Kmalloc) where
  open m use {kmalloc}

  -- `q_grow`, given the `q_addtail` that it calls. From any index the ring is back at `onw` in
  -- fewer than `osize` rounds.
  pub grow : (Queue → ℕ → Outcome (ℕ × Queue)) → Queue → ℕ → Outcome (ℕ × Queue)
  unfolding fit copy
  grow add q target = do
    nsize ← fit 32 q.size target
    elim (kmalloc (nsize * 4 % 2 ^ 32)) [
      | none ↦ done (enomem, q)
      | some ndata ↦ (do
        q' ←
            copy add q.slots q.size q.nextwrite q.size q.nextread
              (record { size = nsize; nextwrite = 0; nextread = 0; slots = ndata })
        done (0, q'))
    ]

  -- The end of `q_addtail`: `q->data[q->nextwrite] = ptr; q->nextwrite = nextnext;`.
  pub put : Queue → ℕ → Outcome (ℕ × Queue)
  put q ptr = do
    slots' ← store q.slots q.nextwrite ptr
    done (0, record q { slots = slots'; nextwrite = (q.nextwrite + 1) % q.size })

  -- `q_addtail` and `q_grow` call each other: the number bounds how often.
  pub addtail_at : ℕ → Queue → ℕ → Outcome (ℕ × Queue)
  unfolding put
  addtail_at zero q ptr =
      assert (ltb 0 q.size)
      >> (if (q.nextwrite + 1) % q.size == q.nextread then panic else put q ptr)
  addtail_at (suc depth) q ptr =
      assert (ltb 0 q.size)
      >> (if (q.nextwrite + 1) % q.size == q.nextread
          then (grow (addtail_at depth) q (q.size + 1) >>= λ (result, q').
              if result == 0 then put q' ptr else done (result, q'))
          else put q ptr)

  -- One call of `q_grow` makes room for all that it copies: `Add.addtail_append`.
  pub addtail : Queue → ℕ → Outcome (ℕ × Queue)
  unfolding addtail_at grow
  addtail = addtail_at 1

  pub preallocate : Queue → ℕ → Outcome (ℕ × Queue)
  unfolding addtail_at grow
  preallocate q size =
      assert (ltb 0 q.size) >> (if ltb q.size size then grow (addtail_at 0) q size else done (0, q))

  -- `q_create`. The flag says whether the call of `kmalloc` for the struct succeeds.
  pub create : Bool → ℕ → Option Queue
  create struct_ok size =
      if struct_ok
      then elim (kmalloc (size * 4 % 2 ^ 32)) [
        | none ↦ none
        | some block ↦ some (record { size = size; nextwrite = 0; nextread = 0; slots = block })
      ]
      else none

unfoldable pub empty : Queue → Bool
empty q = q.nextwrite == q.nextread

pub remhead : Queue → Outcome (ℕ × Queue)
unfolding empty
remhead q = do
  assert (ltb 0 q.size)
  assert (not (empty q))
  ret ← load q.slots q.nextread
  done (ret, record q { nextread = (q.nextread + 1) % q.size })

-- `q_destroy` frees the queue if it is empty.
pub destroy : Queue → Outcome (Unit {0})
unfolding empty
destroy q = assert (empty q)

pub getguy : Queue → ℕ → Outcome ℕ
getguy q index = do assert (ltb index q.size); load q.slots index
