-- ===== src/Sfs/Dir/Entry.antt =====
-- One entry of a directory, read and compared with a name.
use cs350_os.Strings.{char_lt}
use cs350_os.Strings.Order.{strcmp_order, SameBefore}
use cs350_os.Strings.Inv.{IsString}
use cs350_os.Sfs.Dir.{sfd_ino, Found, look_at, is_equal, less, greater}
use native.Mathlib.Decide.{ℕ_discrete, dec_lt}
use cs350_os.Base.{
  ℕ, ◌<◌, if◌then◌else◌, ◌≡◌, ◌≢◌, arith, ◌*◌, ◌==◌, ◌+◌, ◌≤◌, ap, refl, ◌∙◌, suc, sym, zero, ◌⊎◌,
  update, eq→==, inl, Outcome, ne→==, done, inr, some, assert, not, ◌>>◌, true, Bool, false,
}
use cs350_os.Sfs.{word}

-- The inode number of entry `i`, and character `j` of its name, of which the last is not looked at.
abbrev pub entry_ino : (ℕ → ℕ) → ℕ → ℕ
entry_ino dir i = word (λ a. dir (i * 64 + a)) 0

abbrev pub entry_char : (ℕ → ℕ) → ℕ → ℕ → ℕ
entry_char dir i j = if j == 59 then 0 else dir (i * 64 + (4 + j))

-- The entry has a name of `k` characters.
pub record HasLength (dir : ℕ → ℕ) (i k : ℕ) : Type 0 where
  pub short : k < 60
  pub end : entry_char dir i k ≡ 0
  pub char : (j : ℕ) → j < k → entry_char dir i j ≢ 0

first_zero :
    (f : ℕ → ℕ) (n k : ℕ)
    → ((j : ℕ) → j < k → f j ≢ 0)
    → f (k + n) ≡ 0
    → (e : ℕ) × (e ≤ k + n) × (f e ≡ 0) × ((j : ℕ) → j < e → f j ≢ 0)
first_zero f zero k before z =
    (k, omega arith, ap f (let e : k ≡ k + 0 = omega arith in e) ∙ z, before)
first_zero f (suc n) k before z = elim (ℕ_discrete (f k) 0) [
  | yes here ↦ (k, omega arith, here, before)
  | no nz ↦
      let end : k + 1 + n ≡ k + suc n = omega arith in
      let (e, le, ez, all) =
        first_zero f n (k + 1)
          (λ j h. elim (ℕ_discrete j k) [
            | yes same ↦ λ q. nz (ap f (sym same) ∙ q)
            | no ne ↦ before j (omega arith)
          ])
          (ap f end ∙ z) in
      (e, omega arith, ez, all)
]

pub length_of : (dir : ℕ → ℕ) (i : ℕ) → (k : ℕ) × HasLength dir i k
length_of dir i =
    let (k, le, z, before) =
      first_zero (entry_char dir i) 59 0 (λ j h. absurd (omega (arith, h))) refl in
    (k, record { short = omega arith; end = z; char = before })

-- The entry is in use, and its name is the string at `name`.
unfoldable pub Names : (ℕ → ℕ) → (ℕ → ℕ) → ℕ → ℕ → Type 0
Names dir m name i =
    (entry_ino dir i ≢ 0)
    × (k : ℕ) × HasLength dir i k
    × ((j : ℕ) → j < k + 1 → entry_char dir i j ≡ m (name + j))

-- The entry `i` has been read to `sd`.
abbrev pub Holds : (ℕ → ℕ) → (ℕ → ℕ) → ℕ → ℕ → Type 0
Holds dir m sd i = (a : ℕ) → a < 64 → m (sd + a) ≡ dir (i * 64 + a)

same_length : (dir : ℕ → ℕ) (i k l : ℕ) → HasLength dir i k → HasLength dir i l → k ≡ l
same_length dir i k l p q = elim (dec_lt k l) [
  | yes lt ↦ absurd (q.char k lt p.end)
  | no ge ↦ elim (dec_lt l k) [ yes lt ↦ absurd (p.char l lt q.end) | no le ↦ omega arith ]
]

-- What looking at entry `i` finds.
pub data Finds (dir : ℕ → ℕ) (m : ℕ → ℕ) (sd name i : ℕ) (f : Found)
    : Outcome (Found × (ℕ → ℕ)) → Type 0 where
  empty_entry :
      entry_ino dir i ≡ 0 → Finds dir m sd name i f (done (record f { emptyslot = some i }, m))
  named_entry :
      Names dir m name i
      → Finds dir m sd name i f (
          assert (not f.found)
          >> done
              (record f { found = true; ino = entry_ino dir i; slot = i }, update m (sd + 63) 0))
  other_entry :
      entry_ino dir i ≢ 0
      → ¬ Names dir m name i
      → Finds dir m sd name i f (done (f, update m (sd + 63) 0))

module _ (dir : ℕ → ℕ) (m : ℕ → ℕ) (sd name i : ℕ) (holds : Holds dir m sd i)
    (bytes : (x : ℕ) → m x < 256) (clear : (name + 60 ≤ sd) ⊎ (sd + 64 ≤ name)) where
  ended_char : (j : ℕ) → j < 60 → update m (sd + 63) 0 (sd + 4 + j) ≡ entry_char dir i j
  ended_char j h = elim (ℕ_discrete j 59) [
    | yes e ↦ rw (eq→== (sd + 4 + j) (sd + 63) (omega (arith, e)), eq→== j 59 e) refl
    | no ne ↦
        let at : sd + 4 + j ≡ sd + (4 + j) = omega arith in
        rw (ne→== (sd + 4 + j) (sd + 63) (λ e. ne (omega (arith, e))), ne→== j 59 ne)
          (ap m at ∙ holds (4 + j) (omega (arith, h)))
  ]

  ended_name : (j : ℕ) → j < 60 → update m (sd + 63) 0 (name + j) ≡ m (name + j)
  ended_name j h = elim clear [
    | inl below ↦ rw (ne→== (name + j) (sd + 63) (λ e. omega (arith, e, h, below))) refl
    | inr above ↦ rw (ne→== (name + j) (sd + 63) (λ e. omega (arith, e, h, above))) refl
  ]

  ino_lem : sfd_ino m sd ≡ entry_ino dir i
  unfolding sfd_ino word
  ino_lem =
      rw
        (holds 0 (omega arith), holds 1 (omega arith), holds 2 (omega arith), holds 3 (omega arith))
        refl

  ended_same : sfd_ino (update m (sd + 63) 0) sd ≡ sfd_ino m sd
  unfolding sfd_ino word
  ended_same =
      let apart = λ (j : ℕ) (h : j < 4). ne→== (sd + j) (sd + 63) (λ e. omega (arith, h, e)) in
      rw
        (apart 0 (omega arith), apart 1 (omega arith), apart 2 (omega arith), apart 3 (omega arith))
        refl

  ended_ino : sfd_ino (update m (sd + 63) 0) sd ≡ entry_ino dir i
  ended_ino = ended_same ∙ ino_lem

  ended_bytes : (x : ℕ) → update m (sd + 63) 0 x < 256
  ended_bytes x = ground (arith, bytes x)

  ended-IsString : (k : ℕ) → HasLength dir i k → IsString (update m (sd + 63) 0) (sd + 4) k
  ended-IsString k len = record {
    end = ended_char k len.short ∙ len.end;
    char = λ j h e. len.char j h (sym (ended_char j (omega (arith, h, len.short))) ∙ e);
  }

  -- Where the strings differ, the entry does not have the name.
  differ :
      (k j : ℕ)
      → HasLength dir i k
      → j ≤ k
      → update m (sd + 63) 0 (sd + 4 + j) ≢ update m (sd + 63) 0 (name + j)
      → ¬ Names dir m name i
  unfolding Names
  differ k j len le ne (full, l, len', same) =
      let kl = same_length dir i k l len len' in
      let short : j < 60 = omega (arith, le, len.short) in
      ne (ended_char j short ∙ (same j (omega (arith, le, kl)) ∙ sym (ended_name j short)))

  same-Names :
      (k : ℕ)
      → HasLength dir i k
      → entry_ino dir i ≢ 0
      → SameBefore (update m (sd + 63) 0) (sd + 4) name (k + 1)
      → Names dir m name i
  unfolding Names
  same-Names k len nz same = (
    nz,
    k,
    len,
    λ j h.
        let short : j < 60 = omega (arith, h, len.short) in
        sym (ended_char j short) ∙ (same j h ∙ ended_name j short),
  )

  not_equal : (c : Bool) → is_equal (if c then less else greater) ≡ false
  not_equal true = refl
  not_equal false = refl

  pub look_at-Finds : (f : Found) → Finds dir m sd name i f (look_at f m sd name i)
  unfolding look_at
  look_at-Finds f = elim (ℕ_discrete (entry_ino dir i) 0) [
    | yes z ↦ rw (ino_lem, eq→== (entry_ino dir i) 0 z) (empty_entry z)
    | no nz ↦
        let (k, len) = length_of dir i in
        elim (strcmp_order k 60 (sd + 4) name (ended-IsString k len) ended_bytes len.short) [
          | inl (ran, same) ↦
              rw (ino_lem, ne→== (entry_ino dir i) 0 nz, ran, ended_ino)
                (named_entry (same-Names k len nz same))
          | inr (j, le, (ne, same), ran) ↦
              let c =
                char_lt (update m (sd + 63) 0 (sd + 4 + j)) (update m (sd + 63) 0 (name + j)) in
              rw (ino_lem, ne→== (entry_ino dir i) 0 nz, ran, not_equal c)
                (other_entry nz (differ k j len le ne))
        ]
  ]
