-- ===== src/Sfs/Vnodes.antt =====
-- kern/fs/sfs/sfs_vnode.c: the vnodes of a mounted file system, `sfs_loadvnode` and `sfs_reclaim`, and
-- kern/fs/vfs/vnode.c: their counts. A vnode is an address in `heap`, and the table `sfs_vnodes` is the list of the
-- addresses that it holds. Counts are less than 2^31. The lock of the counts is held from the check of a
-- count to its change, so that each is one step.
pub mod Reclaim
pub mod Load
mod Tests
use cs350_os.Sfs.Truncate.{sfs_truncate}
use cs350_os.Base.{
  ℕ, List, Option, Outcome, Bool, update, deref, done, if◌then◌else◌, ◌>>=◌, false, some, ◌+◌, none,
  ◌==◌, not, assert, ◌>>◌, ◌&&◌, ltb, panic, ◌||◌, ◌-◌, true, ◌++◌, ◌∷◌, [],
}
use cs350_os.Base.Errno.{enomem, eisdir, ebusy}
use cs350_os.Sfs.{
  SfsFs, SfsVnode, sfi_type, sfs_sync_inode, sfs_bused, set_half, sfs_rblock, sfi_linkcount,
  sfs_bfree,
}

pub record Pool : Type 0 where
  pub fs : SfsFs
  pub vnodes : List ℕ
  pub heap : ℕ → Option SfsVnode

-- What `kmalloc` gives for a vnode, and whether it gives what `lock_create` and `array_add` ask for.
pub record Supply : Type 0 where
  pub new_vnode : Option ℕ
  pub new_lock : Bool
  pub new_slot : Bool

abbrev pub put_vnode : Pool → ℕ → SfsVnode → Pool
put_vnode p v sv = record p { heap = update p.heap v (some sv) }

abbrev pub with_fs : Pool → SfsFs → Pool
with_fs p s = record p { fs = s }

pub vnode_incref : Pool → ℕ → Outcome Pool
vnode_incref p v =
    deref (p.heap v) >>= λ sv. done (put_vnode p v (record sv { vn_refcount = sv.vn_refcount + 1 }))

-- The search of `sfs_loadvnode` in the table.
pub find_loaded : SfsFs → (ℕ → Option SfsVnode) → List ℕ → ℕ → Outcome (Option ℕ)
find_loaded s heap [] ino = done none
find_loaded s heap (v ∷ vs) ino = deref (heap v) >>= λ sv. sfs_bused s sv.sv_ino >>= λ used.
    let rest = find_loaded s heap vs ino in
    if not used then panic else if sv.sv_ino == ino then done (some v) else rest

-- The inode of a new vnode, and whether it is dirty. `SFS_TYPE_INVAL` is 0.
pub force_type : (ℕ → ℕ) → ℕ → Outcome ((ℕ → ℕ) × Bool)
force_type i forcetype =
    if forcetype == 0
    then done (i, false)
    else assert (sfi_type i == 0) >> done (set_half i 2 forcetype, true)

-- The vnode `v`, which is new, once its inode has been read.
pub set_up : Supply → Pool → ℕ → ℕ → (ℕ → ℕ) × Bool → Outcome (ℕ × Option ℕ × Pool)
set_up given p v ino (i, dirty) =
    if not (sfi_type i == 1) && not (sfi_type i == 2)
    then panic
    else if not given.new_lock || not given.new_slot
    then done (enomem, none, p)
    else done (
      0,
      some v,
      record p {
        vnodes = p.vnodes ++ (v ∷ []);
        heap = update p.heap v (
            some (record {
              sv_i = i;
              sv_ino = ino;
              sv_dirty = dirty;
              vn_refcount = 1;
              vn_opencount = 0;
            }));
      },
    )

-- `sfs_loadvnode` of an inode that is not in the table.
pub load_new : Supply → Pool → ℕ → ℕ → Outcome (ℕ × Option ℕ × Pool)
load_new given p ino forcetype = elim given.new_vnode [
  | none ↦ done (enomem, none, p)
  | some v ↦ sfs_bused p.fs ino >>= λ used.
      if not used
      then panic
      else (sfs_rblock p.fs (λ a. 0) ino >>= λ (result, i, s).
          if not (result == 0)
          then done (result, none, with_fs p s)
          else (force_type i forcetype >>= set_up given (with_fs p s) v ino))
]

-- The error code, `*ret` if it is written, and the pool.
pub sfs_loadvnode : Supply → Pool → ℕ → ℕ → Outcome (ℕ × Option ℕ × Pool)
sfs_loadvnode given p ino forcetype = find_loaded p.fs p.heap p.vnodes ino >>= λ found. elim found [
  | some v ↦ assert (forcetype == 0) >> vnode_incref p v >>= λ p'. done (0, some v, p')
  | none ↦ load_new given p ino forcetype
]

-- `VOP_TRUNCATE`: the table of a directory has `sfs_isdir`.
pub vop_truncate : SfsFs → SfsVnode → ℕ → Outcome (ℕ × SfsFs × SfsVnode)
vop_truncate s sv len =
    if sfi_type sv.sv_i == 2 then done (eisdir, s, sv) else sfs_truncate s sv len

pub in_table : List ℕ → ℕ → Bool
in_table [] v = false
in_table (w ∷ vs) v = (w == v) || in_table vs v

-- `array_remove` at the first index of the vnode.
pub take_out : List ℕ → ℕ → List ℕ
take_out [] v = []
take_out (w ∷ vs) v = if w == v then vs else w ∷ take_out vs v

-- The end of `sfs_reclaim`, from the search of the table on.
pub discard : Pool → ℕ → Outcome (ℕ × Pool)
discard p v = deref (p.heap v) >>= λ sv.
    assert (in_table p.vnodes v)
    >> assert (sv.vn_refcount == 1 && sv.vn_opencount == 0)
    >> done (0, record p { vnodes = take_out p.vnodes v; heap = update p.heap v none })

pub sfs_reclaim : Pool → ℕ → Outcome (ℕ × Pool)
sfs_reclaim p v = deref (p.heap v) >>= λ sv.
    if not (sv.vn_refcount == 1)
    then assert (ltb 1 sv.vn_refcount)
      >> done (ebusy, put_vnode p v (record sv { vn_refcount = sv.vn_refcount - 1 }))
    else ((if sfi_linkcount sv.sv_i == 0 then vop_truncate p.fs sv 0 else done (0, p.fs, sv))
        >>= λ (result, s1, sv1).
            if not (result == 0)
            then done (result, put_vnode (with_fs p s1) v sv1)
            else (sfs_sync_inode s1 sv1 >>= λ (result, s2, sv2).
                if not (result == 0)
                then done (result, put_vnode (with_fs p s2) v sv2)
                else ((if sfi_linkcount sv2.sv_i == 0 then sfs_bfree s2 sv2.sv_ino else done s2)
                    >>= λ s3. discard (put_vnode (with_fs p s3) v sv2) v)))

-- `vnode_decref`: an error of `sfs_reclaim` is printed only.
pub vnode_decref : Pool → ℕ → Outcome Pool
vnode_decref p v = deref (p.heap v) >>= λ sv.
    assert (ltb 0 sv.vn_refcount)
    >> (if ltb 1 sv.vn_refcount
        then done (put_vnode p v (record sv { vn_refcount = sv.vn_refcount - 1 }))
        else (sfs_reclaim p v >>= λ (result, p'). done p'))

pub vnode_incopen : Pool → ℕ → Outcome Pool
vnode_incopen p v = deref (p.heap v) >>= λ sv.
    done (put_vnode p v (record sv { vn_opencount = sv.vn_opencount + 1 }))

-- `sfs_fsync`, and `sfs_close`, which calls it.
pub sfs_fsync : Pool → ℕ → Outcome (ℕ × Pool)
sfs_fsync p v = deref (p.heap v) >>= λ sv.
    sfs_sync_inode p.fs sv >>= λ (result, s, sv'). done (result, put_vnode (with_fs p s) v sv')

pub vnode_decopen : Pool → ℕ → Outcome Pool
vnode_decopen p v = deref (p.heap v) >>= λ sv.
    assert (ltb 0 sv.vn_opencount)
    >> (let p' = put_vnode p v (record sv { vn_opencount = sv.vn_opencount - 1 }) in
        if ltb 0 (sv.vn_opencount - 1)
        then done p'
        else (sfs_fsync p' v >>= λ (result, p''). done p''))

-- `sfs_getroot`. The root is inode 1.
pub sfs_getroot : Supply → Pool → Outcome (ℕ × Pool)
sfs_getroot given p = sfs_loadvnode given p 1 0 >>= λ (result, v, p').
    if not (result == 0) then panic else (deref v >>= λ root. done (root, p'))
