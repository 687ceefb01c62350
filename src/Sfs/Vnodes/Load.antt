-- ===== src/Sfs/Vnodes/Load.antt =====
-- `sfs_loadvnode`: one vnode for each inode.
use cs350_os.Disk.Sector.{after_read}
use cs350_os.Uio.{blit}
use native.Mathlib.Decide.{ℕ_discrete}
use cs350_os.Base.{
  ℕ, List, ◌≡◌, ◌++◌, Option, true, ◌∷◌, some, [], ◌<◌, ◌||◌, ◌==◌, arith, done, ◌⊎◌, none, ◌≢◌,
  inr, eq→==, inl, ne→==, refl, ap, ◌+◌, sym, ◌∙◌, update, false, not, ◌&&◌,
}
use cs350_os.Sfs.{SfsFs, SfsVnode, sp_nblocks, sfi_type, half}
use cs350_os.Sfs.Space.{IsFs, bused_lem, rblock_ok, IsFs-device}
use cs350_os.Bitmap.Bits.{bit}
use cs350_os.Sfs.Vnodes.{
  Pool, find_loaded, in_table, put_vnode, Supply, load_new, force_type, set_up, sfs_loadvnode,
  vnode_incref,
}

-- `sv->sv_ino`
abbrev pub ino_of : Option SfsVnode → ℕ
ino_of none = 0
ino_of (some sv) = sv.sv_ino

-- Each vnode of the table is of an inode in use, and no two are of the same inode.
pub record IsPool (p : Pool) : Type 0 where
  pub fs : IsFs p.fs
  pub loaded :
      (v : ℕ)
      → in_table p.vnodes v ≡ true
      → (sv : SfsVnode) × (p.heap v ≡ some sv)
        × (sv.sv_ino < sp_nblocks p.fs)
        × (bit p.fs.freemap.v sv.sv_ino ≡ true)
  pub unique :
      (v w : ℕ)
      → in_table p.vnodes v ≡ true
      → in_table p.vnodes w ≡ true
      → ino_of (p.heap v) ≡ ino_of (p.heap w)
      → v ≡ w

in_table-append :
    (vs : List ℕ) (v w : ℕ) → in_table (vs ++ (v ∷ [])) w ≡ (in_table vs w || (v == w))
unfolding in_table
in_table-append [] v w = ground arith
in_table-append (x ∷ vs) v w = rw (in_table-append vs v w) (ground arith)

module _ (s : SfsFs) (fs : IsFs s) (heap : ℕ → Option SfsVnode) (ino : ℕ) where
  find_loaded_lem :
      (vs : List ℕ)
      → ((v : ℕ)
          → in_table vs v ≡ true
          → (sv : SfsVnode) × (heap v ≡ some sv)
            × (sv.sv_ino < sp_nblocks s)
            × (bit s.freemap.v sv.sv_ino ≡ true))
      → ((v : ℕ) × (sv : SfsVnode) × (find_loaded s heap vs ino ≡ done (some v))
          × (in_table vs v ≡ true)
          × (heap v ≡ some sv)
          × (sv.sv_ino ≡ ino))
        ⊎ ((find_loaded s heap vs ino ≡ done none)
            × ((v : ℕ) → in_table vs v ≡ true → ino_of (heap v) ≢ ino))
  unfolding find_loaded in_table
  find_loaded_lem [] loaded = inr (refl, λ v e. absurd cc)
  find_loaded_lem (w ∷ vs) loaded =
      let head : (w == w || in_table vs w) ≡ true = rw (eq→== w w refl) refl in
      let (sw, here, inside, used) = loaded w head in
      let test = bused_lem s fs sw.sv_ino inside in
      elim (ℕ_discrete sw.sv_ino ino) [
        | yes e ↦ inl (w, sw, rw (here, test, used, eq→== sw.sv_ino ino e) refl, head, here, e)
        | no ne ↦ elim (find_loaded_lem vs (λ v h. loaded v (ground (arith, h)))) [
          | inl (v, sv, ran, member, there, e) ↦ inl (
            v,
            sv,
            rw (here, test, used, ne→== sw.sv_ino ino ne) ran,
            ground (arith, member),
            there,
            e,
          )
          | inr (ran, none_is) ↦ inr (
            rw (here, test, used, ne→== sw.sv_ino ino ne) ran,
            λ v h. elim (ℕ_discrete w v) [
              | yes same ↦ λ e. ne (ap ino_of (sym here ∙ ap heap same) ∙ e)
              | no other ↦ none_is v (ground (arith, h, other))
            ],
          )
        ]
      ]

-- A vnode `sv'` of inode `ino` is handed back at `v`, and the other vnodes are as they were.
pub record Hands (p : Pool) (ino v : ℕ) (sv' : SfsVnode) (p' : Pool) : Type 0 where
  pub IsPool' : IsPool p'
  pub member : in_table p'.vnodes v ≡ true
  pub here : p'.heap v ≡ some sv'
  pub same_ino : sv'.sv_ino ≡ ino
  pub others : (w : ℕ) → w ≢ v → p'.heap w ≡ p.heap w

-- It was in the table, and has one more reference.
pub record Again (p : Pool) (v : ℕ) (sv' : SfsVnode) (p' : Pool) : Type 0 where
  pub before : SfsVnode
  pub there : p.heap v ≡ some before
  pub counted : sv' ≡ record before { vn_refcount = before.vn_refcount + 1 }
  pub same_table : p'.vnodes ≡ p.vnodes

-- It was not, and has been read from the disk.
pub record Anew (p : Pool) (ino v : ℕ) (sv' : SfsVnode) (p' : Pool) : Type 0 where
  pub none_before : (w : ℕ) → in_table p.vnodes w ≡ true → ino_of (p.heap w) ≢ ino
  pub inode : (a : ℕ) → a < 512 → sv'.sv_i a ≡ p.fs.device.sector ino a
  pub one_ref : sv'.vn_refcount ≡ 1
  pub added : p'.vnodes ≡ p.vnodes ++ (v ∷ [])

module _ (p : Pool) (pool : IsPool p) where
  -- A count of a vnode changes.
  counted_IsPool :
      (v : ℕ) (sv sv' : SfsVnode)
      → p.heap v ≡ some sv
      → sv'.sv_ino ≡ sv.sv_ino
      → IsPool (put_vnode p v sv')
  counted_IsPool v sv sv' here same = record {
    fs = pool.fs;
    loaded = λ w h. elim (ℕ_discrete w v) [
      | yes e ↦
          let (sw, there, inside, used) = pool.loaded w h in
          let ino : sv'.sv_ino ≡ sw.sv_ino =
            same ∙ ap ino_of (sym here ∙ (ap p.heap (sym e) ∙ there)) in
          (sv', rw (eq→== w v e) refl, rw ino inside, rw ino used)
      | no ne ↦ rw (ne→== w v ne) (pool.loaded w h)
    ];
    unique = λ w x hw hx e. pool.unique w x hw hx (sym (same_at w) ∙ (e ∙ same_at x));
  }
    where
      same_at : (w : ℕ) → ino_of (update p.heap v (some sv') w) ≡ ino_of (p.heap w)
      same_at w = elim (ℕ_discrete w v) [
        | yes e ↦ rw (eq→== w v e) (same ∙ ap ino_of (sym here ∙ ap p.heap (sym e)))
        | no ne ↦ rw (ne→== w v ne) refl
      ]

  -- A new vnode of an inode of which there is none.
  added_IsPool :
      (v ino : ℕ) (sv : SfsVnode) (s : SfsFs)
      → p.heap v ≡ none
      → sv.sv_ino ≡ ino
      → ino < sp_nblocks p.fs
      → bit p.fs.freemap.v ino ≡ true
      → ((w : ℕ) → in_table p.vnodes w ≡ true → ino_of (p.heap w) ≢ ino)
      → IsFs s
      → s.freemap ≡ p.fs.freemap
      → s.super ≡ p.fs.super
      → IsPool (record { fs = s; vnodes = p.vnodes ++ (v ∷ []); heap = update p.heap v (some sv) })
  added_IsPool v ino sv s fresh same inside used none_is fs map super = record {
    fs = fs;
    loaded = λ w h. elim (ℕ_discrete w v) [
      | yes e ↦ (sv, rw (eq→== w v e) refl, rw (same, super) inside, rw (same, map) used)
      | no ne ↦ rw (ne→== w v ne, super, map) (pool.loaded w (old w h ne))
    ];
    unique = λ w x hw hx e. elim (ℕ_discrete w v) [
      | yes ew ↦ elim (ℕ_discrete x v) [
        | yes ex ↦ ew ∙ sym ex
        | no nx ↦ absurd (none_is x (old x hx nx) (sym (at_other x nx) ∙ (sym e ∙ at_new w ew)))
      ]
      | no nw ↦ elim (ℕ_discrete x v) [
        | yes ex ↦ absurd (none_is w (old w hw nw) (sym (at_other w nw) ∙ (e ∙ at_new x ex)))
        | no nx ↦
            pool.unique w x (old w hw nw) (old x hx nx) (sym (at_other w nw) ∙ (e ∙ at_other x nx))
      ]
    ];
  }
    where
      old : (w : ℕ) → in_table (p.vnodes ++ (v ∷ [])) w ≡ true → w ≢ v → in_table p.vnodes w ≡ true
      old w h ne = ground (arith, h, in_table-append p.vnodes v w, ne)

      at_new : (w : ℕ) → w ≡ v → ino_of (update p.heap v (some sv) w) ≡ ino
      at_new w e = rw (eq→== w v e) same

      at_other : (w : ℕ) → w ≢ v → ino_of (update p.heap v (some sv) w) ≡ ino_of (p.heap w)
      at_other w ne = rw (ne→== w v ne) refl

-- The inode of a file or a directory, as the disk holds it.
abbrev pub IsInode : (ℕ → ℕ) → Type 0
IsInode i = (sfi_type i ≡ 1) ⊎ (sfi_type i ≡ 2)

type_valid : (i : ℕ → ℕ) → IsInode i → (not (sfi_type i == 1) && not (sfi_type i == 2)) ≡ false
type_valid i (inl e) = rw e refl
type_valid i (inr e) = rw e refl

type_read : (src : ℕ → ℕ) → sfi_type (blit (λ a. 0) 0 src 0 512) ≡ sfi_type src
unfolding half
type_read src = refl

module _ (p : Pool) (pool : IsPool p) (ino : ℕ) (inside : ino < sp_nblocks p.fs)
    (used : bit p.fs.freemap.v ino ≡ true) (inode : IsInode (p.fs.device.sector ino))
    (given : Supply) (v : ℕ) (vnode : given.new_vnode ≡ some v) (lock : given.new_lock ≡ true)
    (table : given.new_slot ≡ true) (fresh : p.heap v ≡ none) where
  new_vnode_of : SfsVnode
  new_vnode_of = record {
    sv_i = blit (λ a. 0) 0 (p.fs.device.sector ino) 0 512;
    sv_ino = ino;
    sv_dirty = false;
    vn_refcount = 1;
    vn_opencount = 0;
  }

  after_load : Pool
  unfolding new_vnode_of
  after_load = record {
    fs = record p.fs { device = after_read p.fs.device ino };
    vnodes = p.vnodes ++ (v ∷ []);
    heap = update p.heap v (some new_vnode_of);
  }

  load_new_run : load_new given p ino 0 ≡ done (0, some v, after_load)
  unfolding load_new force_type set_up after_load new_vnode_of
  load_new_run =
      let test = bused_lem p.fs pool.fs ino inside in
      let read =
        rblock_ok p.fs pool.fs.works ino (omega (arith, inside, pool.fs.on_disk)) pool.fs.small
          (λ a. 0) in
      rw
        (
          vnode,
          test,
          used,
          read,
          type_read (p.fs.device.sector ino),
          type_valid (p.fs.device.sector ino) inode,
          lock,
          table,
        )
        refl

  added_Hands :
      ((w : ℕ) → in_table p.vnodes w ≡ true → ino_of (p.heap w) ≢ ino)
      → Hands p ino v new_vnode_of after_load × Anew p ino v new_vnode_of after_load
  unfolding after_load new_vnode_of
  added_Hands none_is = (
    record {
      IsPool' =
          added_IsPool p pool v ino new_vnode_of after_load.fs fresh refl inside used none_is
            (IsFs-device pool.fs after_load.fs.device refl refl) refl refl;
      member = in_table-append p.vnodes v v ∙ rw (eq→== v v refl) (ground arith);
      here = rw (eq→== v v refl) refl;
      same_ino = refl;
      others = λ w ne. rw (ne→== w v ne) refl;
    },
    record { none_before = none_is; inode = λ a h. ground arith; one_ref = refl; added = refl },
  )

  -- Let each vnode of the table be of an inode in use, and no two of the same inode. On a disk that works, and with
  -- memory for a vnode, `sfs_loadvnode` of an inode in use that the disk holds returns 0 and a vnode of that
  -- inode in the table, and the table is still such. If there was a vnode of the inode, it is that one, with
  -- one more reference; otherwise it is a new one, with one reference and the inode of the disk. No other
  -- vnode changes.
  pub loadvnode-Hands :
      (w : ℕ) × (sv' : SfsVnode) × (p' : Pool) × (sfs_loadvnode given p ino 0
        ≡ done (0, some w, p'))
      × Hands p ino w sv' p'
      × (Again p w sv' p' ⊎ Anew p ino w sv' p')
  unfolding sfs_loadvnode vnode_incref
  loadvnode-Hands = elim (find_loaded_lem p.fs pool.fs p.heap ino p.vnodes pool.loaded) [
    | inl (w, sv, ran, member, here, same) ↦ (
      w,
      record sv { vn_refcount = sv.vn_refcount + 1 },
      put_vnode p w (record sv { vn_refcount = sv.vn_refcount + 1 }),
      rw (ran, here) refl,
      record {
        IsPool' =
            counted_IsPool p pool w sv (record sv { vn_refcount = sv.vn_refcount + 1 }) here refl;
        member = member;
        here = rw (eq→== w w refl) refl;
        same_ino = same;
        others = λ x ne. rw (ne→== x w ne) refl;
      },
      inl (record { before = sv; there = here; counted = refl; same_table = refl }),
    )
    | inr (ran, none_is) ↦
        let (hands, anew) = added_Hands none_is in
        (v, new_vnode_of, after_load, rw ran load_new_run, hands, inr anew)
  ]
