-- ===== src/Strings/Copy.antt =====
-- `strcpy` and `strcat`.
use native.Mathlib.Decide.{ℕ_discrete}
use cs350_os.Base.{
  ℕ, ◌≡◌, ◌+◌, ◌≤◌, ◌<◌, if◌then◌else◌, ◌⊎◌, some, leb, arith, ◌&&◌, ◌-◌, suc, update, ◌==◌, false,
  ne→==, zero, refl,
}
use cs350_os.Strings.{copy_from, strcpy, strcat}
use cs350_os.Strings.Inv.{IsString}
use cs350_os.Strings.Length.{strlen-IsString}

-- `r` is `m` with the `k` characters from `src` on, and a terminator, from `dest` on.
abbrev pub StringCopied : (ℕ → ℕ) → ℕ → ℕ → ℕ → (ℕ → ℕ) → Type 0
StringCopied m dest src k r =
    (a : ℕ) → r a ≡ (if leb dest a && leb a (dest + k) then m (src + (a - dest)) else m a)

-- The string of `k` characters at `src` and its copy at `dest` do not overlap.
abbrev pub Apart : ℕ → ℕ → ℕ → Type 0
Apart dest src k = (dest + k < src) ⊎ (src + k < dest)

copy_from_lem :
    (n k i : ℕ) (m : ℕ → ℕ) (dest src : ℕ)
    → IsString m src k
    → Apart dest src k
    → i ≤ k
    → k < i + n
    → (r : ℕ → ℕ) × (copy_from n m dest src i ≡ some r)
      × ((a : ℕ)
          → r a ≡ (if leb (dest + i) a && leb a (dest + k) then m (src + (a - dest)) else m a))
unfolding copy_from
copy_from_lem zero k i m dest src str apart lo hi = absurd (omega arith)
copy_from_lem (suc n) k i m dest src str apart lo hi = elim (ℕ_discrete i k) [
  | yes e ↦
      let here : m (src + i) ≡ 0 = rw e str.end in
      (update m (dest + i) 0, rw here refl, λ a. ground (arith, here, e))
  | no ne ↦
      let m' : ℕ → ℕ = update m (dest + i) (m (src + i)) in
      let str' : IsString m' src k = record {
        end = ground (arith, str.end, apart);
        char = λ j h. ground (arith, str.char j, apart);
      } in
      let more : (m (src + i) == 0) ≡ false = ne→== _ _ (str.char i (omega arith)) in
      let (r, ran, copied) =
        copy_from_lem n k (i + 1) m' dest src str' apart (omega arith) (omega arith) in
      (r, rw more ran, λ a. ground (arith, copied a, apart))
]

-- `strcpy` of a string of `k` characters to a place that does not overlap it writes the string there
-- with its terminator, and changes nothing else. `k + 1` rounds suffice.
pub strcpy-StringCopied :
    (k n : ℕ) {m : ℕ → ℕ} (dest src : ℕ)
    → IsString m src k
    → Apart dest src k
    → k < n
    → (r : ℕ → ℕ) × (strcpy n m dest src ≡ some r) × StringCopied m dest src k r × IsString r dest k
unfolding strcpy
strcpy-StringCopied k n {m} dest src str apart hi =
    let (r, ran, copied) = copy_from_lem n k 0 m dest src str apart (omega arith) (omega arith) in
    (
      r,
      ran,
      λ a. ground (arith, copied a),
      record {
        end = ground (arith, copied (dest + k), str.end);
        char = λ j h. ground (arith, copied (dest + j), str.char j);
      },
    )

-- `strcat` of a string of `k` characters to one of `l`, with room for both at `dest` that the
-- source does not overlap, leaves a string of `l + k` characters at `dest`: first those that stood there, then
-- those of the source. Nothing else changes.
pub strcat-IsString :
    (l k n : ℕ) {m : ℕ → ℕ} (dest src : ℕ)
    → IsString m dest l
    → IsString m src k
    → Apart (dest + l) src k
    → l < n
    → k < n
    → (r : ℕ → ℕ) × (strcat n m dest src ≡ some r)
      × IsString r dest (l + k)
      × ((j : ℕ) → j < l → r (dest + j) ≡ m (dest + j))
      × ((j : ℕ) → j ≤ k → r (dest + l + j) ≡ m (src + j))
      × ((a : ℕ) → (a < dest) ⊎ (dest + l + k < a) → r a ≡ m a)
unfolding strcat
strcat-IsString l k n {m} dest src there str apart hl hk =
    let (r, ran, copied, made) = strcpy-StringCopied k n (dest + l) src str apart hk in
    (
      r,
      rw (strlen-IsString l n there hl) ran,
      record {
        end = ground (arith, copied (dest + (l + k)), str.end);
        char = λ j h. ground (arith, copied (dest + j), there.char j, str.char (j - l));
      },
      λ j h. ground (arith, copied (dest + j)),
      λ j h. ground (arith, copied (dest + l + j)),
      λ a out. ground (arith, copied a, out),
    )
