-- ===== src/Memory/Tests.antt =====
-- Copies in a small memory, and the theorems at them.
use cs350_os.Base.{ℕ, if◌then◌else◌, ◌<◌, leb, arith, ◌&&◌, ltb, ◌+◌, ◌-◌}
use cs350_os.Memory.{memmove}
use cs350_os.Memory.Copy.{Copied}
use cs350_os.Memory.Move.{memmove-Copied}

-- Eight bytes at 100.
abbrev eight : ℕ → ℕ
eight a = if leb 100 a && ltb a 108 then 65 + (a - 100) else 0

eight-lt : (x : ℕ) → eight x < 256
eight-lt x = ground arith

memmove-Copied_example : Copied eight 104 100 8 (memmove eight 104 100 8)
memmove-Copied_example = memmove-Copied eight 104 100 8
