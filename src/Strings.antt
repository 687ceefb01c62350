-- ===== src/Strings.antt =====
-- lib/libc/strlen.c, strcpy.c, strcat.c, strchr.c, strrchr.c, strcmp.c, strtok_r.c and atoi.c, which the
-- kernel shares with user programs. Memory is a function from addresses to bytes. A loop that runs to
-- the end of a string takes `n` rounds at most and is `none` when they do not suffice; 0 is NULL.
pub mod Inv
pub mod Length
pub mod Copy
pub mod Find
pub mod Order
pub mod Token
pub mod Number
mod Tests
use cs350_os.Base.{
  ℕ, if◌then◌else◌, Bool, Option, suc, ltb, none, ◌+◌, ◌^◌, ◌%◌, ◌==◌, update, not, ◌-◌, some, ◌&&◌,
  zero, leb, ◌||◌, ◌*◌,
}

infixl 5 ◌>>=◌
abbrev ◌>>=◌ {ℓ κ} : {A : Type ℓ} {B : Type κ} → Option A → (A → Option B) → Option B
none >>= f = none
some a >>= f = f a

-- A `char`, which is signed, as an `int` in a register.
pub widen : ℕ → ℕ
widen c = if ltb c 128 then c else c + (2 ^ 32 - 256)

-- Signed comparison of two `char`s.
abbrev pub char_lt : ℕ → ℕ → Bool
char_lt c d = ltb ((c + 128) % 256) ((d + 128) % 256)

-- The loop of `strlen`, from `ret` on.
pub length_from : ℕ → (ℕ → ℕ) → ℕ → ℕ → Option ℕ
length_from zero m s ret = none
length_from (suc n) m s ret =
    let rest = length_from n m s (ret + 1) in if m (s + ret) == 0 then some ret else rest

pub strlen : ℕ → (ℕ → ℕ) → ℕ → Option ℕ
strlen n m s = length_from n m s 0

-- The loop of `strcpy`, and the terminator.
pub copy_from : ℕ → (ℕ → ℕ) → ℕ → ℕ → ℕ → Option (ℕ → ℕ)
copy_from zero m dest src i = none
copy_from (suc n) m dest src i =
    let rest = copy_from n (update m (dest + i) (m (src + i))) dest src (i + 1) in
    if m (src + i) == 0 then some (update m (dest + i) 0) else rest

pub strcpy : ℕ → (ℕ → ℕ) → ℕ → ℕ → Option (ℕ → ℕ)
strcpy n m dest src = copy_from n m dest src 0

pub strcat : ℕ → (ℕ → ℕ) → ℕ → ℕ → Option (ℕ → ℕ)
strcat n m dest src = do offset ← strlen n m dest; strcpy n m (dest + offset) src

-- `strchr`: a pointer into the string, or NULL.
pub strchr : ℕ → (ℕ → ℕ) → ℕ → ℕ → Option ℕ
strchr zero m s ch = none
strchr (suc n) m s ch =
    let rest = strchr n m (s + 1) ch in
    if m s == 0
    then some (if widen (m s) == ch then s else 0)
    else (if widen (m s) == ch then some s else rest)

-- The loop of `strrchr`, from `i` down.
pub last_before : ℕ → (ℕ → ℕ) → ℕ → ℕ → ℕ
last_before zero m s ch = 0
last_before (suc i) m s ch =
    let rest = last_before i m s ch in if widen (m (s + i)) == ch then s + i else rest

pub strrchr : ℕ → (ℕ → ℕ) → ℕ → ℕ → Option ℕ
strrchr n m s ch = do k ← strlen n m s; some (last_before (k + 1) m s ch)

-- The loop of `strcmp`: the index where it stops.
pub differ_from : ℕ → (ℕ → ℕ) → ℕ → ℕ → ℕ → Option ℕ
differ_from zero m a b i = none
differ_from (suc n) m a b i =
    let rest = differ_from n m a b (i + 1) in
    if not (m (a + i) == 0) && m (a + i) == m (b + i) then rest else some i

-- The sign of a comparison; `less` is -1, `greater` is 1.
pub data Sign : Type 0 where
  less : Sign
  equal : Sign
  greater : Sign

pub strcmp : ℕ → (ℕ → ℕ) → ℕ → ℕ → Option Sign
strcmp n m a b = do
  i ← differ_from n m a b 0
  some (
      if char_lt (m (b + i)) (m (a + i))
      then greater
      else (if m (a + i) == m (b + i) then equal else less))

-- `*p && strchr(seps, *p)`: is the character at `p` a separator? `k` rounds suffice for `seps`.
pub is_sep : ℕ → (ℕ → ℕ) → ℕ → ℕ → Option Bool
is_sep k m seps p = do found ← strchr k m seps (widen (m p)); some (not (found == 0))

-- The loops of `strtok_r` over separators, and over a word.
pub skip_seps : ℕ → ℕ → (ℕ → ℕ) → ℕ → ℕ → Option ℕ
skip_seps zero k m seps head = none
skip_seps (suc n) k m seps head =
    let rest = skip_seps n k m seps (head + 1) in
    if m head == 0
    then some head
    else (is_sep k m seps head >>= λ sep. if sep then rest else some head)

pub skip_word : ℕ → ℕ → (ℕ → ℕ) → ℕ → ℕ → Option ℕ
skip_word zero k m seps tail = none
skip_word (suc n) k m seps tail =
    let rest = skip_word n k m seps (tail + 1) in
    if m tail == 0
    then some tail
    else (is_sep k m seps tail >>= λ sep. if sep then some tail else rest)

-- `strtok_r`: the word, or NULL, the context and the memory that it leaves.
pub strtok_r : ℕ → ℕ → (ℕ → ℕ) → ℕ → ℕ → ℕ → Option (ℕ × ℕ × (ℕ → ℕ))
strtok_r n k m string seps context =
    let start : ℕ = if string == 0 then context else string in
    if start == 0
    then some (0, start, m)
    else (skip_seps n k m seps start >>= λ head.
        if m head == 0
        then some (0, 0, m)
        else (skip_word n k m seps head >>= λ tail.
            if m tail == 0 then some (head, 0, m) else some (head, tail + 1, update m tail 0)))

-- The static array `digits` of `atoi`, "0123456789", at address 1 of a memory of its own.
abbrev pub digits : ℕ → ℕ
digits a = if leb 1 a && leb a 10 then 47 + a else 0

-- The loops of `atoi`: over blanks, and over digits, where `val` is an `unsigned`.
pub skip_blanks : ℕ → (ℕ → ℕ) → ℕ → Option ℕ
skip_blanks zero m s = none
skip_blanks (suc n) m s =
    let rest = skip_blanks n m (s + 1) in if m s == 32 || m s == 9 then rest else some s

pub value_from : ℕ → (ℕ → ℕ) → ℕ → ℕ → Option ℕ
value_from zero m s val = none
value_from (suc n) m s val =
    if m s == 0
    then some val
    else (strchr 11 digits 1 (widen (m s)) >>= λ place.
        let rest = value_from n m (s + 1) ((val * 10 + (place - 1)) % 2 ^ 32) in
        if place == 0 then some val else rest)

pub atoi : ℕ → (ℕ → ℕ) → ℕ → Option ℕ
atoi n m s = do
  t ← skip_blanks n m s
  let neg = m t == 45
  val ← value_from n m (if neg || m t == 43 then t + 1 else t) 0
  some (if neg then (2 ^ 32 - val) % 2 ^ 32 else val)
