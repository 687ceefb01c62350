-- ===== src/Sfs/Names.antt =====
-- kern/fs/sfs/sfs_vnode.c: the operations on names in the directory, over Dir and Vnodes. `dir` is the vnode of the
-- directory, `m` the kernel's memory, and `sd` and `name` as in Dir; `n` rounds are enough for the name.
use cs350_os.Strings.{strlen, strcpy}
use cs350_os.Base.Errno.{enoent, eexist, enotdir, enametoolong}
use cs350_os.Sfs.Dir.{Found, sfs_dir_findname, sfs_dir_link, sfs_dir_unlink}
use cs350_os.Sfs.Vnodes.{
  Pool, Supply, put_vnode, with_fs, vnode_decref, sfs_loadvnode, vnode_incref,
}
use cs350_os.Base.{
  ℕ, Outcome, Option, deref, Bool, ◌>>=◌, done, assert, if◌then◌else◌, ltb, not, ◌==◌, none, ◌&&◌,
  ◌>>◌, ◌+◌, ◌-◌, some, panic, ◌%◌, true, ◌^◌,
}
use cs350_os.Sfs.{sfs_balloc, set_half, sfi_linkcount, sfi_type}

-- The error code, a vnode or a slot that is handed back, the pool and the memory.
abbrev pub NameResult : Type 0
NameResult = Outcome (ℕ × Option ℕ × Pool × (ℕ → ℕ))

-- The calls of `sfs_dir_findname`, `sfs_dir_link` and `sfs_dir_unlink` on the vnode of the directory.
pub find_in : Pool → ℕ → (ℕ → ℕ) → ℕ → ℕ → Outcome (ℕ × Found × Pool × (ℕ → ℕ))
find_in p dir m sd name = deref (p.heap dir) >>= λ sv.
    sfs_dir_findname p.fs sv m sd name >>= λ (result, f, s, sv', m').
    done (result, f, put_vnode (with_fs p s) dir sv', m')

pub link_in : ℕ → Pool → ℕ → (ℕ → ℕ) → ℕ → ℕ → ℕ → NameResult
link_in n p dir m sd name ino = deref (p.heap dir) >>= λ sv.
    sfs_dir_link n p.fs sv m sd name ino >>= λ (result, i, s, sv', m').
    done (result, i, put_vnode (with_fs p s) dir sv', m')

pub unlink_in : Pool → ℕ → (ℕ → ℕ) → ℕ → ℕ → Outcome (ℕ × Pool × (ℕ → ℕ))
unlink_in p dir m sd i = deref (p.heap dir) >>= λ sv.
    sfs_dir_unlink p.fs sv m sd i >>= λ (result, s, sv', m').
    done (result, put_vnode (with_fs p s) dir sv', m')

-- `sfi_linkcount++`, and `sfi_linkcount--` after the assertion that it is not 0.
pub add_link : Pool → ℕ → Outcome Pool
add_link p v = deref (p.heap v) >>= λ sv. done (
    put_vnode p v (record sv {
      sv_i = set_half sv.sv_i 3 ((sfi_linkcount sv.sv_i + 1) % 2 ^ 16);
      sv_dirty = true;
    }))

pub drop_link : Pool → ℕ → Outcome Pool
drop_link p v = deref (p.heap v) >>= λ sv.
    assert (ltb 0 (sfi_linkcount sv.sv_i))
    >> done (
        put_vnode p v
          (record sv { sv_i = set_half sv.sv_i 3 (sfi_linkcount sv.sv_i - 1); sv_dirty = true }))

-- Also the slot of the name.
pub sfs_lookonce : Supply → Pool → ℕ → (ℕ → ℕ) → ℕ → ℕ → Outcome (ℕ × Option ℕ × ℕ × Pool × (ℕ → ℕ))
sfs_lookonce given p dir m sd name = find_in p dir m sd name >>= λ (result, f, p', m').
    if not (result == 0)
    then done (result, none, f.slot, p', m')
    else (sfs_loadvnode given p' f.ino 0 >>= λ (result, v, p'').
        if not (result == 0)
        then done (result, none, f.slot, p'', m')
        else (deref v >>= λ a. deref (p''.heap a) >>= λ sv.
            if sfi_linkcount sv.sv_i == 0 then panic else done (0, some a, f.slot, p'', m')))

pub sfs_makeobj : Supply → Pool → ℕ → Outcome (ℕ × Option ℕ × Pool)
sfs_makeobj given p type = sfs_balloc p.fs >>= λ (result, ino, s).
    if not (result == 0)
    then done (result, none, with_fs p s)
    else (deref ino >>= λ i. sfs_loadvnode given (with_fs p s) i type)

-- The new file of `sfs_creat` gets its name.
pub name_new : ℕ → Pool → ℕ → (ℕ → ℕ) → ℕ → ℕ → ℕ → NameResult
name_new n p dir m sd name v = deref (p.heap v) >>= λ sv.
    link_in n p dir m sd name sv.sv_ino >>= λ (result, i, p', m').
    if not (result == 0)
    then (vnode_decref p' v >>= λ p''. done (result, none, p'', m'))
    else (add_link p' v >>= λ p''. done (0, some v, p'', m'))

pub sfs_creat : Supply → ℕ → Pool → ℕ → (ℕ → ℕ) → ℕ → ℕ → Bool → NameResult
sfs_creat given n p dir m sd name excl = find_in p dir m sd name >>= λ (result, f, p', m').
    if not (result == 0) && not (result == enoent)
    then done (result, none, p', m')
    else if result == 0 && excl
    then done (eexist, none, p', m')
    else if result == 0
    then (sfs_loadvnode given p' f.ino 0 >>= λ (result, v, p''). done (result, v, p'', m'))
    else (sfs_makeobj given p' 1 >>= λ (result, v, p'').
        if not (result == 0)
        then done (result, none, p'', m')
        else (deref v >>= λ a. name_new n p'' dir m' sd name a))

-- `sfs_link`, of a file of the same file system.
pub sfs_link : ℕ → Pool → ℕ → (ℕ → ℕ) → ℕ → ℕ → ℕ → Outcome (ℕ × Pool × (ℕ → ℕ))
sfs_link n p dir m sd name file = deref (p.heap file) >>= λ f.
    link_in n p dir m sd name f.sv_ino >>= λ (result, i, p', m').
    if not (result == 0)
    then done (result, p', m')
    else (add_link p' file >>= λ p''. done (0, p'', m'))

pub sfs_remove : Supply → Pool → ℕ → (ℕ → ℕ) → ℕ → ℕ → Outcome (ℕ × Pool × (ℕ → ℕ))
sfs_remove given p dir m sd name = sfs_lookonce given p dir m sd name >>= λ (result, v, i, p1, m1).
    if not (result == 0) then done (result, p1, m1) else (do
      victim ← deref v
      (code, p2, m2) ← unlink_in p1 dir m1 sd i
      p3 ← if code == 0 then drop_link p2 victim else done p2
      p4 ← vnode_decref p3 victim
      done (code, p4, m2))

-- `sfs_rename` once the new name is linked at slot `slot2`; `puke_harder` is the failure of the first call.
pub unlink_old : Pool → ℕ → (ℕ → ℕ) → ℕ → ℕ → ℕ → ℕ → Outcome (ℕ × Pool × (ℕ → ℕ))
unlink_old p dir m sd g1 slot1 slot2 = unlink_in p dir m sd slot1 >>= λ (result, p1, m1).
    if result == 0
    then (drop_link p1 g1 >>= λ p2. vnode_decref p2 g1 >>= λ p3. done (0, p3, m1))
    else (unlink_in p1 dir m1 sd slot2 >>= λ (result2, p2, m2).
        if not (result2 == 0)
        then panic
        else (deref (p2.heap g1) >>= λ sv.
            vnode_decref
              (put_vnode p2 g1 (record sv {
                sv_i = set_half sv.sv_i 3 ((sfi_linkcount sv.sv_i + 2 ^ 16 - 1) % 2 ^ 16);
              }))
              g1
            >>= λ p3. done (result, p3, m2)))

-- `sfs_rename`, within one directory.
pub sfs_rename : Supply → ℕ → Pool → ℕ → (ℕ → ℕ) → ℕ → ℕ → ℕ → Outcome (ℕ × Pool × (ℕ → ℕ))
sfs_rename given n p dir m sd n1 n2 = deref (p.heap dir) >>= λ sv.
    assert (sv.sv_ino == 1)
    >> (sfs_lookonce given p dir m sd n1 >>= λ (result, v, slot1, p1, m1).
        if not (result == 0)
        then done (result, p1, m1)
        else (deref v >>= λ g1. deref (p1.heap g1) >>= λ g.
            assert (sfi_type g.sv_i == 1)
            >> (link_in n p1 dir m1 sd n2 g.sv_ino >>= λ (result, i, p2, m2).
                if not (result == 0)
                then (vnode_decref p2 g1 >>= λ p3. done (result, p3, m2))
                else (deref i >>= λ slot2.
                    add_link p2 g1 >>= λ p3. unlink_old p3 dir m2 sd g1 slot1 slot2))))

pub sfs_lookup : Supply → Pool → ℕ → (ℕ → ℕ) → ℕ → ℕ → NameResult
sfs_lookup given p dir m sd path = deref (p.heap dir) >>= λ sv.
    if not (sfi_type sv.sv_i == 2)
    then done (enotdir, none, p, m)
    else (sfs_lookonce given p dir m sd path >>= λ (result, v, i, p', m'). done (result, v, p', m'))

-- `sfs_lookparent`, which hands back the directory itself.
pub sfs_lookparent : ℕ → Pool → ℕ → (ℕ → ℕ) → ℕ → ℕ → ℕ → NameResult
sfs_lookparent n p dir m path buf buflen = deref (p.heap dir) >>= λ sv.
    if not (sfi_type sv.sv_i == 2)
    then done (enotdir, none, p, m)
    else (deref (strlen n m path) >>= λ length.
        if ltb buflen (length + 1)
        then done (enametoolong, none, p, m)
        else (deref (strcpy n m buf path) >>= λ m'.
            vnode_incref p dir >>= λ p'. done (0, some dir, p', m')))
