-- ===== src/Sfs/Truncate/Whole.antt =====
-- `sfs_truncate` on a file, on a disk that works.
use native.Mathlib.Decide.{dec_lt, ℕ_discrete}
use cs350_os.Sfs.Truncate.Sweep.{swept}
use cs350_os.Sfs.Words.{word-set_word}
use cs350_os.Base.{
  ℕ, Bool, ◌<◌, true, if◌then◌else◌, ◌≡◌, ◌^◌, ltb, arith, done, leb, Bool-cases, ◌+◌, ◌&&◌, not,
  ◌==◌, inr, ◌∙◌, inl, ◌≢◌, refl, ◌≤◌, false, ◌-◌, ap, ne→==, ◌*◌, ◌/◌, ◌%◌,
}
use cs350_os.Sfs.{SfsVnode, SfsFs, set_word, sfi_size, sfi_indirect}
use cs350_os.Bitmap.{divroundup}
use cs350_os.Sfs.Map.Slots.{IsFile, slot, slot_none, file_byte}
use cs350_os.Sfs.Truncate.{sfs_truncate}
use cs350_os.Sfs.Truncate.Direct.{cut, trunc_direct-Direct, Direct}
use cs350_os.Sfs.Truncate.Lost.{Lost, Lost-Shrinks}
use cs350_os.Sfs.Truncate.Shrink.{Shrinks, Shrinks-trans, Rest, Rest-trans, Rest-word}
use cs350_os.Sfs.Truncate.Discards.{trunc_indirect-Lost}

-- The vnode with the size `len`.
abbrev pub sized : SfsVnode → ℕ → SfsVnode
sized sv len = record sv { sv_i = set_word sv.sv_i 0 len; sv_dirty = true }

-- The blocks of a file that are discarded when it is `blocklen` blocks long.
abbrev pub past : ℕ → ℕ → Bool
past blocklen j = if ltb j 15 then leb blocklen j else ltb blocklen j

pub record Truncated (s : SfsFs) (sv : SfsVnode) (len : ℕ) (s' : SfsFs) (sv' : SfsVnode)
    : Type 0 where
  pub size : sfi_size sv'.sv_i ≡ len
  pub blocks :
      (j : ℕ) → j < 143 → slot s' sv' j ≡ (if past (divroundup len 512) j then 0 else slot s sv j)
  pub bytes : (p : ℕ) → p < len → p < 143 * 512 → file_byte s' sv' p ≡ file_byte s sv p
  pub shrinks : Shrinks s sv s' sv'
  pub rest : Rest sv sv'

bytes_kept :
    {s : SfsFs} {sv : SfsVnode} {s' : SfsFs} {sv' : SfsVnode}
    → IsFile s sv
    → (len : ℕ) → len + 512 ≤ 2 ^ 31
    → ((j : ℕ) → j < 143 → slot s' sv' j ≡ (if past (divroundup len 512) j then 0 else slot s sv j))
    → Shrinks s sv s' sv'
    → (p : ℕ) → p < len
    → p < 143 * 512
    → file_byte s' sv' p ≡ file_byte s sv p
bytes_kept {s} {sv} {s'} {sv'} file len small blocks shrinks p lt inside =
    let same : slot s' sv' (p / 512) ≡ slot s sv (p / 512) =
      blocks (p / 512) (omega arith)
      ∙ rw (let here : past (divroundup len 512) (p / 512) ≡ false = ground arith in here) refl in
    rw same (elim (ℕ_discrete (slot s sv (p / 512)) 0) [
      | yes z ↦ rw z refl
      | no nz ↦ rw (ne→== (slot s sv (p / 512)) 0 nz) (
          ap (λ c. c (p % 512))
            (shrinks.frame (slot s sv (p / 512)) (
              file.distinct (p / 512) 143 (omega arith) (omega arith)
                (λ e. omega (arith, inside, e)) nz)))
    ])

module _ (s : SfsFs) (sv : SfsVnode) (len : ℕ) (small : len < 2 ^ 32) where
  pub sized_slot : (j : ℕ) → slot s (sized sv len) j ≡ slot s sv j
  unfolding slot
  sized_slot j =
      ground
        (arith, word-set_word sv.sv_i 0 len (2 + j) small, word-set_word sv.sv_i 0 len 17 small)

  pub sized-Shrinks :
      {s0 : SfsFs} {sv0 : SfsVnode} → Shrinks s0 sv0 s sv → Shrinks s0 sv0 s (sized sv len)
  sized-Shrinks {s0} {sv0} p = record {
    IsFile' = record {
      fs = p.IsFile'.fs;
      used = λ i h. rw (sized_slot i) (p.IsFile'.used i h);
      distinct = λ i j h k. rw (sized_slot i, sized_slot j) (p.IsFile'.distinct i j h k);
    };
    sub = λ j h. rw (sized_slot j) (p.sub j h);
    freed = λ j h. rw (sized_slot j) (p.freed j h);
    others = p.others;
    unused = p.unused;
    frame = p.frame;
    same_super = p.same_super;
  }

-- The blocks that are left after the two loops, or after the first if the second is not run.
module _ {s : SfsFs} {sv : SfsVnode} {blocklen : ℕ} {s1 : SfsFs} {sv1 : SfsVnode}
    (d : Direct s sv blocklen 0 15 s1 sv1) where
  blocks_direct :
      (ltb blocklen 142 && not (sfi_indirect sv1.sv_i == 0)) ≡ false
      → (j : ℕ) → j < 143
      → slot s1 sv1 j ≡ (if past blocklen j then 0 else slot s sv j)
  blocks_direct none_left j h = elim (dec_lt j 15) [
    | yes lt ↦ d.slots j (omega arith) ∙ ground (arith, lt)
    | no ge ↦ elim (ℕ_discrete (sfi_indirect sv1.sv_i) 0) [
      | yes z ↦
          let (k, e) : (k : ℕ) × (j ≡ 15 + k) = (j - 15, omega arith) in
          let empty : slot s1 sv1 j ≡ 0 = ap (slot s1 sv1) e ∙ slot_none s1 sv1 k (omega arith) z in
          ground (arith, empty, d.slots j)
      | no nz ↦
          d.slots j (omega arith) ∙ ground (arith, none_left, ne→== (sfi_indirect sv1.sv_i) 0 nz)
    ]
  ]

  blocks_both :
      (drop : Bool) (s2 : SfsFs) (sv2 : SfsVnode)
      → Lost (swept blocklen drop) s1 sv1 s2 sv2
      → (j : ℕ) → j < 143
      → slot s2 sv2 j ≡ (if past blocklen j then 0 else slot s sv j)
  blocks_both drop s2 sv2 lost j h =
      let before : slot s1 sv1 j ≡ (if cut blocklen 0 15 j then 0 else slot s sv j) =
        d.slots j (omega arith) in
      let after : slot s2 sv2 j ≡ (if swept blocklen drop j then 0 else slot s1 sv1 j) =
        lost.slots j (omega arith) in
      after ∙ rw before (ground arith)

module _ (s : SfsFs) (sv : SfsVnode) (file : IsFile s sv) (len : ℕ)
    (small : len + 512 ≤ 2 ^ 31) where
  sized-Truncated :
      (s1 : SfsFs) (sv1 : SfsVnode)
      → Shrinks s sv s1 sv1
      → Rest sv sv1
      → ((j : ℕ)
          → j < 143
          → slot s1 sv1 j ≡ (if past (divroundup len 512) j then 0 else slot s sv j))
      → Truncated s sv len s1 (sized sv1 len)
  sized-Truncated s1 sv1 shrinks rest blocks =
      let at_end = sized-Shrinks s1 sv1 len (omega (arith, small)) shrinks in
      let blocks' =
        λ (j : ℕ) (h : j < 143). sized_slot s1 sv1 len (omega (arith, small)) j ∙ blocks j h in
      record {
        size = word-set_word sv1.sv_i 0 len 0 (omega (arith, small)) ∙ refl;
        blocks = blocks';
        bytes = bytes_kept file len small blocks' at_end;
        shrinks = at_end;
        rest = Rest-word rest 0 len (λ e. omega (arith, e));
      }

  -- `sfs_truncate` of a file to a length, on a disk that works, does not fail, and sets the size. Of the
  -- direct blocks, those from the number of whole blocks of the new length on are taken from the file, and of
  -- the others those with a greater number than that; the rest stay, the bytes before the new end are the same,
  -- and what is left is again a file. A block that is taken is marked free, and the indirect block too if it is
  -- taken; no other mark changes, nor any block but the indirect block, nor the vnode's type, number and
  -- counts. The length with a block added fits in 31 bits.
  pub sfs_truncate-Truncated :
      (s' : SfsFs) × (sv' : SfsVnode) × (sfs_truncate s sv len ≡ done (0, s', sv'))
      × Truncated s sv len s' sv'
  unfolding sfs_truncate
  sfs_truncate-Truncated =
      let blocklen = divroundup len 512 in
      let (s1, sv1, ran, d) = trunc_direct-Direct 15 0 blocklen s sv file (omega arith) in
      elim (Bool-cases (ltb blocklen 142 && not (sfi_indirect sv1.sv_i == 0))) [
        | inr none_left ↦ (
          s1,
          sized sv1 len,
          rw (ran, none_left) refl,
          sized-Truncated s1 sv1 d.shrinks d.rest (blocks_direct d none_left),
        )
        | inl some_left ↦
            let nz : sfi_indirect sv1.sv_i ≢ 0 = ground (arith, some_left) in
            let (drop, s2, sv2, ran2, lost, kept) =
              trunc_indirect-Lost s1 sv1 d.shrinks.IsFile' nz blocklen in
            let both =
              Shrinks-trans d.shrinks (Lost-Shrinks d.shrinks.IsFile' lost)
                (d.slots 143 (omega arith) ∙ refl) in
            (
              s2,
              sized sv2 len,
              rw (ran, some_left, ran2) refl,
              sized-Truncated s2 sv2 both (Rest-trans d.rest kept) (blocks_both d drop s2 sv2 lost),
            )
      ]
