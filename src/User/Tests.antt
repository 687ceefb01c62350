-- ===== src/User/Tests.antt =====
-- A string in user memory, and the theorem at it.
use cs350_os.Base.{
  ℕ, if◌then◌else◌, arith, ◌<◌, leb, ◌+◌, refl, ◌&&◌, ◌^◌, ltb, none, ◌≡◌, some, ◌≤◌, inr,
}
use cs350_os.Base.Errno.{efault, enametoolong}
use cs350_os.Strings.Inv.{IsString}
use cs350_os.Strings.Copy.{StringCopied}
use cs350_os.User.{copyinstr}
use cs350_os.User.Strings.{copyinstr_outcomes}

-- Three characters at 4096.
abbrev name : ℕ → ℕ
name a = if leb 4096 a && ltb a 4099 then 97 else 0

name-IsString : IsString name 4096 3
name-IsString = record { end = refl; char = λ j h. ground arith }

copyinstr_outcomes_example :
    (◌<◌ 3 16
      → ◌<◌ (4096 + 3) (2 ^ 31)
      → (r : ℕ → ℕ) × (copyinstr none name 4096 2200000000 16 ≡ (0, some (3 + 1), r))
        × StringCopied name 2200000000 4096 3 r)
    × (◌≤◌ (2 ^ 31) (4096 + 3)
        → ◌<◌ (2 ^ 31) (4096 + 16)
        → (r : ℕ → ℕ) × (copyinstr none name 4096 2200000000 16 ≡ (efault, none, r)))
    × (◌≤◌ 16 3
        → ◌≤◌ (4096 + 16) (2 ^ 31)
        → (r : ℕ → ℕ) × (copyinstr none name 4096 2200000000 16 ≡ (enametoolong, none, r)))
copyinstr_outcomes_example =
    copyinstr_outcomes 2200000000 4096 16 3 name-IsString (inr (omega arith)) (omega arith)
      (omega arith) (omega arith)
