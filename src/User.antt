-- ===== src/User.antt =====
-- kern/lib/copyinout.c: copies between user and kernel memory. `fault` is the memory that is left where the
-- machine faults during a copy and `copyfail` takes over, or `none` where it does not.
pub mod Strings
mod Tests
use cs350_os.Base.{
  ℕ, ◌^◌, ◌+◌, Option, ◌-◌, if◌then◌else◌, none, ◌%◌, not, suc, ltb, ◌==◌, update, leb, ◌&&◌, some,
  zero,
}
use cs350_os.Base.Errno.{efault, enametoolong}
use cs350_os.Memory.{memcpy}

abbrev pub usertop : ℕ
usertop = 2 ^ 31

-- `copycheck`: the error code, and `*stoplen`. Addresses wrap around.
unfoldable pub copycheck : ℕ → ℕ → ℕ × ℕ
copycheck userptr len =
    let top = (userptr + len + 2 ^ 32 - 1) % 2 ^ 32 in
    if ltb top userptr
    then (efault, len)
    else if leb usertop userptr
    then (efault, len)
    else if leb usertop top
    then (0, usertop - userptr)
    else (0, len)

-- What `copyin` and `copyout` share: `user` is the address that is checked.
pub copy_block : Option (ℕ → ℕ) → (ℕ → ℕ) → ℕ → ℕ → ℕ → ℕ → ℕ × (ℕ → ℕ)
copy_block fault m user dest src len =
    let (result, stoplen) = copycheck user len in
    if not (result == 0)
    then (result, m)
    else if not (stoplen == len)
    then (efault, m)
    else elim fault [ some m' ↦ (efault, m') | none ↦ (0, memcpy m dest src len) ]

pub copyin : Option (ℕ → ℕ) → (ℕ → ℕ) → ℕ → ℕ → ℕ → ℕ × (ℕ → ℕ)
unfolding copy_block
copyin fault m usersrc dest len = copy_block fault m usersrc dest usersrc len

pub copyout : Option (ℕ → ℕ) → (ℕ → ℕ) → ℕ → ℕ → ℕ → ℕ × (ℕ → ℕ)
unfolding copy_block
copyout fault m src userdest len = copy_block fault m userdest userdest src len

-- The loop of `copystr`, with at most `n` tests left: the error code, `*gotlen` if it is written, and the
-- memory.
pub copystr : ℕ → ℕ → (ℕ → ℕ) → ℕ → ℕ → ℕ → ℕ → ℕ × Option ℕ × (ℕ → ℕ)
copystr zero i m dest src maxlen stoplen = (enametoolong, none, m)
copystr (suc n) i m dest src maxlen stoplen =
    let rest = copystr n (i + 1) (update m (dest + i) (m (src + i))) dest src maxlen stoplen in
    if ltb i maxlen && ltb i stoplen
    then (if m (src + i) == 0 then (0, some (i + 1), update m (dest + i) (m (src + i))) else rest)
    else (if ltb stoplen maxlen then (efault, none, m) else (enametoolong, none, m))

-- What `copyinstr` and `copyoutstr` share.
pub copy_string : Option (ℕ → ℕ) → (ℕ → ℕ) → ℕ → ℕ → ℕ → ℕ → ℕ × Option ℕ × (ℕ → ℕ)
unfolding copystr
copy_string fault m user dest src len =
    let (result, stoplen) = copycheck user len in
    if not (result == 0) then (result, none, m) else elim fault [
      | some m' ↦ (efault, none, m')
      | none ↦ copystr (len + 1) 0 m dest src len stoplen
    ]

pub copyinstr : Option (ℕ → ℕ) → (ℕ → ℕ) → ℕ → ℕ → ℕ → ℕ × Option ℕ × (ℕ → ℕ)
copyinstr fault m usersrc dest len = copy_string fault m usersrc dest usersrc len

pub copyoutstr : Option (ℕ → ℕ) → (ℕ → ℕ) → ℕ → ℕ → ℕ → ℕ × Option ℕ × (ℕ → ℕ)
copyoutstr fault m src userdest len = copy_string fault m userdest userdest src len
