-- ===== src/Array.antt =====
-- kern/lib/array.c: an array of pointers that grows.
pub mod Inv
pub mod Ops
pub mod Edit
mod Tests
use cs350_os.Base.{
  ℕ, Option, Bool, Outcome, List, if◌then◌else◌, deref, panic, done, assert, ◌+◌, some, ◌>>=◌, leb,
  suc, none, load, ltb, store, ◌>>◌, ◌==◌, length, ◌*◌, ◌&&◌, take, ◌-◌, zero, ◌^◌, ◌%◌, ◌++◌, drop,
}
use cs350_os.Base.Errno.{enomem}
use cs350_os.Kmalloc.{Kmalloc}

-- `struct array`. `v` is NULL or a block, whose words are addresses. The numbers are ints that are
-- never negative.
pub record Array : Type 0 where
  pub num : ℕ
  pub max : ℕ
  pub v : Option (List ℕ)

pub array_create : Bool → Option Array
array_create struct_ok = if struct_ok then some (record { num = 0; max = 0; v = none }) else none

-- `a->v[i]`
abbrev pub slot : Array → ℕ → Outcome ℕ
slot a i = deref a.v >>= λ block. load block i

pub array_getguy : Array → ℕ → Outcome ℕ
array_getguy a index = do assert (leb a.num a.max); assert (ltb index a.num); slot a index

-- The first loop of `array_preallocate`. It passes any int within 31 rounds; a doubling past 2 ^ 31
-- is an overflow.
pub enlarge : ℕ → ℕ → ℕ → Outcome ℕ
enlarge zero newmax nguys = panic
enlarge (suc fuel) newmax nguys =
    let more =
      if ltb ((newmax + 1) * 2) (2 ^ 31) then enlarge fuel ((newmax + 1) * 2) nguys else panic in
    if ltb newmax nguys then more else done newmax

-- The second loop, with `n` rounds left.
pub copy_slots : ℕ → ℕ → Array → List ℕ → Outcome (List ℕ)
copy_slots zero i a newv = done newv
copy_slots (suc n) i a newv = do x ← slot a i; newv' ← store newv i x; copy_slots n (i + 1) a newv'

module _ (m : Kmalloc) where
  open m use {kmalloc}

  pub array_preallocate : Array → ℕ → Outcome (ℕ × Array)
  unfolding enlarge copy_slots
  array_preallocate a nguys =
      assert (leb a.num a.max)
      >> (enlarge 32 a.max nguys >>= λ newmax. elim (kmalloc (newmax * 4 % 2 ^ 32)) [
        | none ↦ done (enomem, a)
        | some newv ↦ copy_slots a.num 0 a newv >>= λ newv'.
            done (0, record a { max = newmax; v = some newv' })
      ])

  -- `array_setsize`. The assertion that `v` is not NULL is the `panic`.
  pub array_setsize : Array → ℕ → Outcome (ℕ × Array)
  array_setsize a nguys =
      assert (leb a.num a.max)
      >> (if ltb a.max nguys
          then (array_preallocate a nguys >>= λ (result, a').
              done (if result == 0 then (0, record a' { num = nguys }) else (result, a')))
          else (if nguys == 0 && ltb 16 a.max
              then (deref a.v >>= λ block. done (0, record { num = nguys; max = 0; v = none }))
              else done (0, record a { num = nguys })))

  pub array_add : Array → ℕ → Outcome (ℕ × Array)
  array_add a guy = array_setsize a (a.num + 1) >>= λ (result, a').
      if result == 0
      then (deref a'.v >>= λ block.
          store block a.num guy >>= λ block'. done (0, record a' { v = some block' }))
      else done (result, a')

pub array_setguy : Array → ℕ → ℕ → Outcome Array
array_setguy a index ptr = do
  assert (leb a.num a.max)
  assert (ltb index a.num)
  block ← deref a.v
  block' ← store block index ptr
  done (record a { v = some block' })

-- `memmove(a->v+index, a->v+index+1, nmove*sizeof(void *))` on the words of the block.
pub move_down : List ℕ → ℕ → ℕ → Outcome (List ℕ)
move_down block index nmove =
    if leb (index + 1 + nmove) (length block)
    then done
        (take index block ++ (take nmove (drop (index + 1) block) ++ drop (index + nmove) block))
    else panic

pub array_remove : Array → ℕ → Outcome Array
unfolding move_down
array_remove a index = do
  assert (leb a.num a.max)
  assert (ltb index a.num)
  block ← deref a.v
  block' ← move_down block index (a.num - (index + 1))
  done (record a { num = a.num - 1; v = some block' })
