-- ===== src/Sfs/Vnodes/Reclaim.antt =====
-- `sfs_reclaim` of a file that no name refers to any more.
use cs350_os.Sfs.Truncate.{sfs_truncate}
use cs350_os.Disk.Sector.{after_write}
use cs350_os.Sfs.Space.{IsFs, bfree_lem, wblock_ok, IsFs-device}
use cs350_os.Base.{
  ℕ, ◌≡◌, ◌<◌, some, done, ◌≢◌, arith, Bool-cases, true, false, ap, inr, none, ◌∙◌, inl, update,
  refl, not, sym, ◌==◌, eq→==, ◌&&◌, ne→==,
}
use cs350_os.Sfs.{
  SfsFs, sfs_sync_inode, SfsVnode, sp_nblocks, sfi_type, word, sfi_linkcount, half, sfs_bfree,
}
use cs350_os.Bitmap.Bits.{bit}
use cs350_os.Sfs.Map.Slots.{IsFile, slot}
use cs350_os.Sfs.Vnodes.{Pool, sfs_reclaim, discard, vop_truncate, in_table, take_out}
use cs350_os.Sfs.Truncate.Whole.{Truncated, sfs_truncate-Truncated}

-- The vnode has been written to the disk, if it was dirty.
record Synced (s : SfsFs) (sv : SfsVnode) (s' : SfsFs) (sv' : SfsVnode) : Type 0 where
  same_map : s'.freemap ≡ s.freemap
  same_super : s'.super ≡ s.super
  IsFs' : IsFs s'
  inode : sv'.sv_i ≡ sv.sv_i
  ino : sv'.sv_ino ≡ sv.sv_ino
  refs : sv'.vn_refcount ≡ sv.vn_refcount
  opens : sv'.vn_opencount ≡ sv.vn_opencount

sync_inode-Synced :
    (s : SfsFs) (sv : SfsVnode)
    → IsFs s
    → sv.sv_ino < sp_nblocks s
    → (s' : SfsFs) × (sv' : SfsVnode) × (sfs_sync_inode s sv ≡ done (0, s', sv'))
      × Synced s sv s' sv'
unfolding sfs_sync_inode
sync_inode-Synced s sv fs inside = elim (Bool-cases sv.sv_dirty) [
  | inr clean ↦ (
    s,
    sv,
    rw clean refl,
    record {
      same_map = refl;
      same_super = refl;
      IsFs' = fs;
      inode = refl;
      ino = refl;
      refs = refl;
      opens = refl;
    },
  )
  | inl dirty ↦
      let device = after_write s.device sv.sv_ino sv.sv_i 0 in
      (
        record s { device = device },
        record sv { sv_dirty = false },
        rw
            (
              dirty,
              wblock_ok s fs.works sv.sv_ino (omega (arith, inside, fs.on_disk)) fs.small sv.sv_i,
            )
            refl,
        record {
          same_map = refl;
          same_super = refl;
          IsFs' = IsFs-device fs device refl refl;
          inode = refl;
          ino = refl;
          refs = refl;
          opens = refl;
        },
      )
]

-- A vnode with one reference and no name, of a file, in an inode that is in use and is none of its blocks.
pub record Unnamed (p : Pool) (v : ℕ) (sv : SfsVnode) : Type 0 where
  pub here : p.heap v ≡ some sv
  pub pooled : in_table p.vnodes v ≡ true
  pub file : IsFile p.fs sv
  pub regular : sfi_type sv.sv_i ≡ 1
  pub unlinked : sfi_linkcount sv.sv_i ≡ 0
  pub one_ref : sv.vn_refcount ≡ 1
  pub not_open : sv.vn_opencount ≡ 0
  pub inside : sv.sv_ino < sp_nblocks p.fs
  pub nonzero : sv.sv_ino ≢ 0
  pub used : bit p.fs.freemap.v sv.sv_ino ≡ true
  pub apart : (j : ℕ) → j < 144 → slot p.fs sv j ≢ sv.sv_ino

-- Its data blocks and its inode are marked free, it is out of the table and of the heap, and the other blocks in use,
-- but the indirect block, stay so.
pub record Reclaimed (p : Pool) (v : ℕ) (sv : SfsVnode) (p' : Pool) : Type 0 where
  pub fs : IsFs p'.fs
  pub blocks : (j : ℕ) → j < 143 → slot p.fs sv j ≢ 0 → bit p'.fs.freemap.v (slot p.fs sv j) ≡ false
  pub inode : bit p'.fs.freemap.v sv.sv_ino ≡ false
  pub others :
      (c : ℕ)
      → bit p.fs.freemap.v c ≡ true
      → c ≢ sv.sv_ino
      → ((j : ℕ) → j < 144 → slot p.fs sv j ≢ 0 → slot p.fs sv j ≢ c)
      → bit p'.fs.freemap.v c ≡ true
  pub table : p'.vnodes ≡ take_out p.vnodes v
  pub freed : p'.heap v ≡ none
  pub heap : (w : ℕ) → w ≢ v → p'.heap w ≡ p.heap w

-- After the truncation and the write of the inode.
module _ {p : Pool} {v : ℕ} {sv : SfsVnode} (u : Unnamed p v sv) {s1 : SfsFs} {sv1 : SfsVnode}
    (t : Truncated p.fs sv 0 s1 sv1) {s2 : SfsFs} {sv2 : SfsVnode} (y : Synced s1 sv1 s2 sv2) where
  same_ino : sv2.sv_ino ≡ sv.sv_ino
  same_ino = y.ino ∙ t.rest.ino

  no_links : sfi_linkcount sv2.sv_i ≡ 0
  no_links = ap (λ i. half i 3) y.inode ∙ (t.rest.links ∙ u.unlinked)

  same_bit : (c : ℕ) → bit s2.freemap.v c ≡ bit s1.freemap.v c
  same_bit c = ap (λ b. bit b.v c) y.same_map

  still_inside : sv2.sv_ino < sp_nblocks s2
  still_inside =
      let blocks : sp_nblocks s2 ≡ sp_nblocks p.fs =
        ap (λ x. word x 1) (y.same_super ∙ t.shrinks.same_super) in
      rw (same_ino, blocks) u.inside

  still_used : bit s2.freemap.v sv2.sv_ino ≡ true
  still_used =
      rw (same_bit sv2.sv_ino, same_ino) (t.shrinks.others sv.sv_ino u.used (λ j h nz. u.apart j h))

  emptied : (j : ℕ) → j < 143 → slot p.fs sv j ≢ 0 → bit s2.freemap.v (slot p.fs sv j) ≡ false
  emptied j h nz =
      let gone : slot s1 sv1 j ≡ 0 = t.blocks j h ∙ ground arith in
      same_bit (slot p.fs sv j) ∙ t.shrinks.freed j (omega arith) nz gone

  in_the_end :
      (s3 : SfsFs)
      → IsFs s3
      → ((c : ℕ) → bit s3.freemap.v c ≡ (not (c == sv2.sv_ino) && bit s2.freemap.v c))
      → Reclaimed p v sv (record {
        fs = s3;
        vnodes = take_out p.vnodes v;
        heap = update (update p.heap v (some sv2)) v none;
      })
  in_the_end s3 fs bits = record {
    fs = fs;
    blocks = λ j h nz. bits (slot p.fs sv j) ∙ rw (emptied j h nz) (ground arith);
    inode = bits sv.sv_ino ∙ rw (eq→== sv.sv_ino sv2.sv_ino (sym same_ino)) refl;
    others = λ c used ne other.
        bits c
        ∙ rw (ne→== c sv2.sv_ino (λ e. ne (e ∙ same_ino)), same_bit c)
            (t.shrinks.others c used other);
    table = refl;
    freed = rw (eq→== v v refl) refl;
    heap = λ w ne. rw (ne→== w v ne) refl;
  }

-- The steps of `sfs_reclaim`, none of which fails.
reclaim_run :
    (p : Pool) (v : ℕ) {sv : SfsVnode} {s1 : SfsFs} {sv1 : SfsVnode} {s2 : SfsFs} {sv2 : SfsVnode}
    {s3 : SfsFs}
    → p.heap v ≡ some sv
    → in_table p.vnodes v ≡ true
    → sv.vn_refcount ≡ 1
    → sfi_linkcount sv.sv_i ≡ 0
    → sfi_type sv.sv_i ≡ 1
    → sfs_truncate p.fs sv 0 ≡ done (0, s1, sv1)
    → sfs_sync_inode s1 sv1 ≡ done (0, s2, sv2)
    → sfi_linkcount sv2.sv_i ≡ 0
    → sv2.vn_refcount ≡ 1
    → sv2.vn_opencount ≡ 0
    → sfs_bfree s2 sv2.sv_ino ≡ done s3
    → sfs_reclaim p v
      ≡ done (
        0,
        record {
          fs = s3;
          vnodes = take_out p.vnodes v;
          heap = update (update p.heap v (some sv2)) v none;
        },
      )
unfolding sfs_reclaim vop_truncate discard
reclaim_run p v {sv} {sv2 = sv2} here pooled refs links type ran1 ran2 links2 refs2 opens2 ran3 =
    let file : (sfi_type sv.sv_i == 2) ≡ false = rw type refl in
    rw
      (
        here,
        eq→== sv.vn_refcount 1 refs,
        eq→== (sfi_linkcount sv.sv_i) 0 links,
        file,
        ran1,
        ran2,
        eq→== (sfi_linkcount sv2.sv_i) 0 links2,
        ran3,
        eq→== v v refl,
        pooled,
        eq→== sv2.vn_refcount 1 refs2,
        eq→== sv2.vn_opencount 0 opens2,
      )
      refl

module _ (p : Pool) (v : ℕ) (sv : SfsVnode) (u : Unnamed p v sv) where
  -- The last reference to a file without a name is given up, on a disk that works: `sfs_reclaim` returns 0, its
  -- data blocks and its inode are marked free, and every other block in use, but its indirect block,
  -- stays so; its vnode is out of the table and freed, and no other vnode has changed.
  pub reclaim-Reclaimed : (p' : Pool) × (sfs_reclaim p v ≡ done (0, p')) × Reclaimed p v sv p'
  reclaim-Reclaimed =
      let (s1, sv1, ran1, t) = sfs_truncate-Truncated p.fs sv u.file 0 (omega arith) in
      let blocks1 : sp_nblocks s1 ≡ sp_nblocks p.fs = ap (λ x. word x 1) t.shrinks.same_super in
      let inside1 : sv1.sv_ino < sp_nblocks s1 = rw (t.rest.ino, blocks1) u.inside in
      let (s2, sv2, ran2, y) = sync_inode-Synced s1 sv1 t.shrinks.IsFile'.fs inside1 in
      let nz : sv2.sv_ino ≢ 0 = λ z. u.nonzero (sym (same_ino u t y) ∙ z) in
      let (s3, ran3, fs3, bits, device, super) =
        bfree_lem s2 y.IsFs' sv2.sv_ino (still_inside u t y) nz (still_used u t y) in
      (
        record {
          fs = s3;
          vnodes = take_out p.vnodes v;
          heap = update (update p.heap v (some sv2)) v none;
        },
        reclaim_run p v u.here u.pooled u.one_ref u.unlinked u.regular ran1 ran2 (no_links u t y)
            (y.refs ∙ (t.rest.refs ∙ u.one_ref)) (y.opens ∙ (t.rest.opens ∙ u.not_open)) ran3,
        in_the_end u t y s3 fs3 bits,
      )
