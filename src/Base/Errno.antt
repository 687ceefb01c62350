-- ===== src/Base/Errno.antt =====
-- kern/include/kern/errno.h: a function that can fail returns 0 or one of these.
use Prim.Native.Nat.{ℕ}

abbrev pub einval : ℕ
einval = 1

abbrev pub efault : ℕ
efault = 2

abbrev pub enomem : ℕ
enomem = 4

abbrev pub eagain : ℕ
eagain = 11

abbrev pub enospc : ℕ
enospc = 20

abbrev pub emfile : ℕ
emfile = 21

abbrev pub ebadf : ℕ
ebadf = 26

abbrev pub enametoolong : ℕ
enametoolong = 3

abbrev pub eio : ℕ
eio = 5

abbrev pub enoent : ℕ
enoent = 6

abbrev pub enotdir : ℕ
enotdir = 7

abbrev pub eisdir : ℕ
eisdir = 8

abbrev pub eexist : ℕ
eexist = 9

abbrev pub eunimp : ℕ
eunimp = 13

abbrev pub ebusy : ℕ
ebusy = 16
