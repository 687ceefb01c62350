-- ===== src/Sfs/Dir/Search.antt =====
-- The search of a directory for a name.
use native.Mathlib.Decide.{ℕ_discrete}
use cs350_os.Files.Io.{Uio, mk_kuio, uio_read}
use cs350_os.Uio.{blit}
use cs350_os.Sfs.{SfsFs, SfsVnode, sfi_size, no_space}
use cs350_os.Base.{
  ℕ, ◌≡◌, ◌<◌, ◌*◌, true, ◌≤◌, false, done, some, none, ◌≢◌, inl, arith, refl, ◌⊎◌, update, ◌+◌,
  Bool-cases, ne→==, inr, Option, ap, Outcome, ◌∙◌, ◌-◌, sym,
}
use cs350_os.Sfs.Map.Slots.{IsFile, file_byte}
use cs350_os.Sfs.Map.Look.{Read}
use cs350_os.Sfs.FileIo.Whole.{sfs_read-Reads, read_io, before_end}
use cs350_os.Sfs.FileIo.Blocks.{Ready}
use cs350_os.Sfs.Dir.{sfs_readdir, Found}
use cs350_os.Sfs.Dir.Entry.{empty_entry, named_entry, other_entry, Names, entry_ino, Holds, Finds}

-- The bytes of entry `i` in memory at `sd`.
abbrev pub with_entry : (ℕ → ℕ) → ℕ → (ℕ → ℕ) → ℕ → ℕ → ℕ
with_entry m sd dir i = blit m sd dir (i * 64) 64

module _ (s : SfsFs) (sv : SfsVnode) (file : IsFile s sv) (n : ℕ) (size : sfi_size sv.sv_i ≡ n * 64)
    (small : n * 64 ≤ 143 * 512) (m : ℕ → ℕ) (sd : ℕ) where
  pub readdir_lem :
      (i : ℕ)
      → i < n
      → (s' : SfsFs) × (sfs_readdir s sv m sd i
          ≡ done (0, s', sv, with_entry m sd (file_byte s sv) i))
        × Read s sv s'
  unfolding sfs_readdir
  readdir_lem i h =
      let u : Uio = mk_kuio sd 64 (i * 64) uio_read in
      let ready : Ready no_space u 64 = record {
        reach = inl (refl, refl);
        fits = omega arith;
        left = omega arith;
        low = omega (arith, h, small);
      } in
      let inside : i * 64 < sfi_size sv.sv_i = omega (arith, h, size) in
      let (s', ran, read) =
        (sfs_read-Reads no_space s sv m file u ready (omega arith) refl
            (omega (arith, size, small))).1
          inside in
      let all : before_end sv u ≡ 64 = ground (arith, size, h) in
      (s', rw (read_io no_space s sv m u refl, ran, all) refl, read)

-- What the search of the entries before `i` has found.
pub record Search (dir m : ℕ → ℕ) (name i : ℕ) (f : Found) : Type 0 where
  pub hit : f.found ≡ true → (f.slot < i) × Names dir m name f.slot × (f.ino ≡ entry_ino dir f.slot)
  pub miss : f.found ≡ false → (j : ℕ) → j < i → ¬ Names dir m name j
  pub free : (e : ℕ) → f.emptyslot ≡ some e → (e < i) × (entry_ino dir e ≡ 0)
  pub full : f.emptyslot ≡ none → (j : ℕ) → j < i → entry_ino dir j ≢ 0

-- A name stands in one entry only.
abbrev pub Once : (ℕ → ℕ) → (ℕ → ℕ) → ℕ → ℕ → Type 0
Once dir m name n = (i j : ℕ) → i < n → j < n → Names dir m name i → Names dir m name j → i ≡ j

abbrev or_zero : Option ℕ → ℕ
or_zero none = 0
or_zero (some e) = e

-- Nothing outside the entry's 64 bytes has changed, and each byte is one.
pub record SameText (sd : ℕ) (m m' : ℕ → ℕ) : Type 0 where
  pub outside : (x : ℕ) → (x < sd) ⊎ (sd + 64 ≤ x) → m' x ≡ m x
  pub bytes : (x : ℕ) → m' x < 256

ended_SameText : (sd : ℕ) (m : ℕ → ℕ) → ((x : ℕ) → m x < 256) → SameText sd m (update m (sd + 63) 0)
ended_SameText sd m bytes = record {
  outside = λ x h. elim h [
    | inl below ↦ rw (ne→== x (sd + 63) (λ e. omega (arith, below, e))) refl
    | inr above ↦ rw (ne→== x (sd + 63) (λ e. omega (arith, above, e))) refl
  ];
  bytes = λ x. ground (arith, bytes x);
}

module _ (dir m0 m : ℕ → ℕ) (sd name i n : ℕ) (inside : i < n) (once : Once dir m0 name n)
    (f : Found) (so_far : Search dir m0 name i f) (bytes : (x : ℕ) → m x < 256)
    (to_old : (j : ℕ) → Names dir m name j → Names dir m0 name j)
    (to_new : (j : ℕ) → Names dir m0 name j → Names dir m name j) where
  before_next : (j : ℕ) → j < i + 1 → j ≢ i → j < i
  before_next j h ne = omega arith

  step_empty :
      entry_ino dir i ≡ 0
      → ¬ Names dir m0 name i
      → Search dir m0 name (i + 1) (record f { emptyslot = some i })
  step_empty z not_named = record {
    hit = λ e. let (lt, there, at) = so_far.hit e in (omega arith, there, at);
    miss = λ e j h. elim (ℕ_discrete j i) [
      | yes same ↦ rw same not_named
      | no ne ↦ so_far.miss e j (before_next j h ne)
    ];
    free = λ e here.
        let same : i ≡ e = ap or_zero here in
        (omega (arith, same), ap (entry_ino dir) (sym same) ∙ z);
    full = λ e. absurd cc;
  }

  step_named :
      Names dir m0 name i
      → entry_ino dir i ≢ 0
      → Search dir m0 name (i + 1) (record f { found = true; ino = entry_ino dir i; slot = i })
  step_named named nz = record {
    hit = λ e. (omega arith, named, refl);
    miss = λ e. absurd cc;
    free = λ e here. let (lt, z) = so_far.free e here in (omega arith, z);
    full = λ e j h. elim (ℕ_discrete j i) [
      | yes same ↦ rw same nz
      | no ne ↦ so_far.full e j (before_next j h ne)
    ];
  }

  step_other : entry_ino dir i ≢ 0 → ¬ Names dir m0 name i → Search dir m0 name (i + 1) f
  step_other nz not_named = record {
    hit = λ e. let (lt, there, at) = so_far.hit e in (omega arith, there, at);
    miss = λ e j h. elim (ℕ_discrete j i) [
      | yes same ↦ rw same not_named
      | no ne ↦ so_far.miss e j (before_next j h ne)
    ];
    free = λ e here. let (lt, z) = so_far.free e here in (omega arith, z);
    full = λ e j h. elim (ℕ_discrete j i) [
      | yes same ↦ rw same nz
      | no ne ↦ so_far.full e j (before_next j h ne)
    ];
  }

  not_found : Names dir m0 name i → f.found ≡ false
  not_found named = elim (Bool-cases f.found) [
    | inr e ↦ e
    | inl e ↦
        let (lt, there, at) = so_far.hit e in
        let same = once f.slot i (omega (arith, lt, inside)) inside there named in
        absurd (omega (arith, lt, same))
  ]

  pub step :
      (r : Outcome (Found × (ℕ → ℕ)))
      → Finds dir m sd name i f r
      → (f' : Found) × (m' : ℕ → ℕ) × (r ≡ done (f', m'))
        × Search dir m0 name (i + 1) f'
        × SameText sd m m'
  unfolding Names
  step _ (empty_entry z) = (
    record f { emptyslot = some i },
    m,
    refl,
    step_empty z (λ q. q.0 z),
    record { outside = λ x h. refl; bytes = bytes },
  )
  step _ (named_entry q) = (
    record f { found = true; ino = entry_ino dir i; slot = i },
    update m (sd + 63) 0,
    rw (not_found (to_old i q)) refl,
    step_named (to_old i q) q.0,
    ended_SameText sd m bytes,
  )
  step _ (other_entry nz q) = (
    f,
    update m (sd + 63) 0,
    refl,
    step_other nz (λ q'. q (to_new i q')),
    ended_SameText sd m bytes,
  )

pub same_text_trans : (sd : ℕ) (a b c : ℕ → ℕ) → SameText sd a b → SameText sd b c → SameText sd a c
same_text_trans sd a b c p q = record {
  outside = λ x h. q.outside x h ∙ p.outside x h;
  bytes = q.bytes;
}

-- The names that are looked for do not change with the rest of the memory.
pub kept-Names :
    (dir m m' : ℕ → ℕ) (sd name : ℕ)
    → ((name + 60 ≤ sd) ⊎ (sd + 64 ≤ name))
    → ((x : ℕ) → (x < sd) ⊎ (sd + 64 ≤ x) → m' x ≡ m x)
    → (j : ℕ)
    → (Names dir m name j → Names dir m' name j) × (Names dir m' name j → Names dir m name j)
unfolding Names
kept-Names dir m m' sd name clear outside j =
    let at : (a : ℕ) → a < 60 → m' (name + a) ≡ m (name + a) = λ a h.
      outside (name + a) (elim clear [
        | inl below ↦ inl (omega (arith, below, h))
        | inr above ↦ inr (omega (arith, above))
      ]) in
    (
      λ (nz, k, len, same).
          (nz, k, len, λ a h. same a h ∙ sym (at a (omega (arith, h, len.short)))),
      λ (nz, k, len, same). (nz, k, len, λ a h. same a h ∙ at a (omega (arith, h, len.short))),
    )

-- An entry that has been read.
pub entry_SameText :
    (m dir : ℕ → ℕ) (sd i : ℕ)
    → ((x : ℕ) → m x < 256)
    → ((x : ℕ) → dir x < 256)
    → SameText sd m (with_entry m sd dir i)
entry_SameText m dir sd i bytes dir_bytes = record {
  outside = λ x h. ground arith;
  bytes = λ x. ground (arith, bytes x, dir_bytes (i * 64 + (x - sd)));
}

pub entry-Holds : (m dir : ℕ → ℕ) (sd i : ℕ) → Holds dir (with_entry m sd dir i) sd i
entry-Holds m dir sd i a h = let e : sd + a - sd ≡ a = omega arith in ground (arith, e)
