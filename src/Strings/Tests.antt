-- ===== src/Strings/Tests.antt =====
-- Three strings in memory, and the theorems at them.
use cs350_os.Base.{
  ℕ, update, ◌<◌, arith, ◌≡◌, some, refl, ◌+◌, ◌≤◌, if◌then◌else◌, ◌⊎◌, ◌==◌, inl, ◌^◌, ◌-◌, ◌%◌,
}
use cs350_os.Strings.{char_lt, strcmp, less, equal, greater, strtok_r, atoi}
use cs350_os.Strings.Inv.{IsString}
use cs350_os.Strings.Order.{SameBefore, FirstDifference, strcmp_order}
use cs350_os.Strings.Token.{IsSep, strtok_r-word}
use cs350_os.Strings.Number.{decimal, after_sign, atoi-decimal}

-- " -42" at 100, "a/b" at 200 and "/" at 300.
abbrev text : ℕ → ℕ
text =
    update
      (update
        (update
          (update (update (update (update (update (λ _. 0) 100 32) 101 45) 102 52) 103 50) 200 97)
          201 47)
        202 98)
      300 47

text-lt : (x : ℕ) → text x < 256
text-lt x = ground arith

number-IsString : IsString text 100 4
number-IsString = record { end = refl; char = λ j h. ground arith }

path-IsString : IsString text 200 3
path-IsString = record { end = refl; char = λ j h. ground arith }

slash-IsString : IsString text 300 1
slash-IsString = record { end = refl; char = λ j h. ground arith }

strcmp_order_example :
    ((strcmp 9 text 200 300 ≡ some equal) × SameBefore text 200 300 (3 + 1))
    ⊎ ((i : ℕ) × (i ≤ 3)
        × FirstDifference text 200 300 i
        × (strcmp 9 text 200 300
            ≡ some (if char_lt (text (200 + i)) (text (300 + i)) then less else greater)))
strcmp_order_example = strcmp_order 3 9 200 300 path-IsString text-lt (omega arith)

strtok_r-word_example :
    ((strtok_r 9 9 text 200 300 0 ≡ some (0, 0, text))
      × ((x : ℕ) → 200 ≤ x → x < 200 + 3 → IsSep text 300 1 x))
    ⊎ ((head tail : ℕ) × (200 ≤ head)
        × (head < tail)
        × (tail ≤ 200 + 3)
        × ((x : ℕ) → 200 ≤ x → x < head → IsSep text 300 1 x)
        × ((x : ℕ) → head ≤ x → x < tail → ¬ IsSep text 300 1 x)
        × (tail ≡ 200 + 3 → strtok_r 9 9 text 200 300 0 ≡ some (head, 0, text))
        × (tail < 200 + 3
            → (strtok_r 9 9 text 200 300 0 ≡ some (head, tail + 1, update text tail 0))
              × IsSep text 300 1 tail))
strtok_r-word_example =
    strtok_r-word 200 3 300 1 9 9 200 0 text-lt path-IsString (omega arith) slash-IsString
      (omega arith) (inl refl) (omega arith) (omega arith)

atoi-decimal_example :
    atoi 9 text 100
    ≡ some (
        if text (100 + 1) == 45
        then (2 ^ 32 - decimal text (after_sign text (100 + 1)) 2 % 2 ^ 32) % 2 ^ 32
        else decimal text (after_sign text (100 + 1)) 2 % 2 ^ 32)
atoi-decimal_example =
    atoi-decimal 100 1 2 9 text-lt (λ j h. inl (ground arith)) (λ h. ground arith)
      (λ j h. (ground arith, ground arith)) (λ h. ground arith) (omega arith) (omega arith)
