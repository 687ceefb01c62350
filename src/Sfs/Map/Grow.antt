-- ===== src/Sfs/Map/Grow.antt =====
-- The ways in which `sfs_bmap` fills an empty slot with a block that it has allocated.
use cs350_os.Disk.Sector.{after_write}
use cs350_os.Base.{
  ℕ, ◌+◌, ◌-◌, ◌^◌, ◌<◌, ◌≤◌, ◌≡◌, ◌≢◌, true, arith, ◌==◌, if◌then◌else◌, refl, ◌∙◌, ne→==, sym, ap,
}
use cs350_os.Sfs.{SfsFs, SfsVnode, word, set_word, sfi_indirect}
use cs350_os.Sfs.Words.{word-set_word, half-set_word, word-zeros, word-blit}
use cs350_os.Sfs.Space.{Fresh, IsFs-device}
use cs350_os.Sfs.Map.Slots.{slot, IsFile, Keeps, Grown}

-- The inode with the block `b` at word `k`.
abbrev pub with_block : SfsVnode → ℕ → ℕ → SfsVnode
with_block sv k b = record sv { sv_i = set_word sv.sv_i k b; sv_dirty = true }

module _ {s : SfsFs} {sv : SfsVnode} {b : ℕ} {s' : SfsFs} (file : IsFile s sv)
    (fresh : Fresh s b s') where
  open fresh use {free, inside, nonzero, bits, zeros, others, same_super, IsFs'}

  small : b < 2 ^ 32
  small = omega (arith, inside, file.fs.on_disk, file.fs.small)

  with_block-Keeps : (k : ℕ) → 2 ≤ k → Keeps sv (with_block sv k b)
  with_block-Keeps k h = record {
    size = word-set_word sv.sv_i k b 0 small ∙ rw (ne→== 0 k (omega arith)) refl;
    type = half-set_word sv.sv_i k b 2 (omega arith);
    links = half-set_word sv.sv_i k b 3 (omega arith);
    ino = refl;
    refs = refl;
    opens = refl;
  }

  -- The indirect block is in use, so it is not the new block.
  pub indirect-ne : sfi_indirect sv.sv_i ≢ b
  unfolding slot
  indirect-ne e =
      let used = (file.used 143 (omega arith) (λ z. nonzero (sym e ∙ z))).1 in
      absurd (ground (arith, used, free, e))

  direct_slots :
      (i j : ℕ)
      → i < 15
      → j < 144
      → slot s' (with_block sv (2 + i) b) j ≡ (if j == i then b else slot s sv j)
  unfolding slot
  direct_slots i j h k = ground (
    arith,
    word-set_word sv.sv_i (2 + i) b (2 + j) small,
    word-set_word sv.sv_i (2 + i) b 17 small,
    ap (λ c. word c (j - 15)) (others (sfi_indirect sv.sv_i) indirect-ne),
  )

  indirect_slots :
      (j : ℕ)
      → sfi_indirect sv.sv_i ≡ 0
      → j < 144
      → slot s' (with_block sv 17 b) j ≡ (if j == 143 then b else slot s sv j)
  unfolding slot
  indirect_slots j e h = ground (
    arith,
    word-set_word sv.sv_i 17 b (2 + j) small,
    word-set_word sv.sv_i 17 b 17 small,
    word-zeros (s'.device.sector b) (j - 15) zeros,
    e,
    nonzero,
  )

  same_sector : (c : ℕ) → c ≢ b → c ≢ slot s sv 143 → s'.device.sector c ≡ s.device.sector c
  same_sector c h _ = others c h

  pub grow_direct : (i : ℕ) → i < 15 → slot s sv i ≡ 0 → Grown s sv i b s' (with_block sv (2 + i) b)
  grow_direct i h e = record {
    valid = omega arith;
    empty = e;
    free = free;
    inside = inside;
    nonzero = nonzero;
    bits = bits;
    slots = λ j k. direct_slots i j h k;
    zeros = zeros;
    others = same_sector;
    same_super = same_super;
    kept = with_block-Keeps (2 + i) (omega arith);
    IsFs' = IsFs';
  }

  pub grow_indirect : sfi_indirect sv.sv_i ≡ 0 → Grown s sv 143 b s' (with_block sv 17 b)
  unfolding slot
  grow_indirect e = record {
    valid = omega arith;
    empty = e;
    free = free;
    inside = inside;
    nonzero = nonzero;
    bits = bits;
    slots = λ j k. indirect_slots j e k;
    zeros = zeros;
    others = same_sector;
    same_super = same_super;
    kept = with_block-Keeps 17 (omega arith);
    IsFs' = IsFs';
  }

  module _ (idbuf : ℕ → ℕ) (o : ℕ) (in_block : o < 128) (some_block : sfi_indirect sv.sv_i ≢ 0)
      (read : (j : ℕ)
        → j < 128
        → word idbuf j ≡ word (s.device.sector (sfi_indirect sv.sv_i)) j) where
    -- The file system once the indirect block has been written back.
    abbrev pub written : SfsFs
    written = record s' {
      device = after_write s'.device (sfi_indirect sv.sv_i) (set_word idbuf o b) 0;
    }

    entry_slots : (j : ℕ) → j < 144 → slot written sv j ≡ (if j == 15 + o then b else slot s sv j)
    unfolding slot
    entry_slots j h = ground (
      arith,
      word-blit s'.device.lh_buf (set_word idbuf o b) (j - 15),
      word-set_word idbuf o b (j - 15) small,
      read (j - 15),
      some_block,
    )

    pub grow_entry : slot s sv (15 + o) ≡ 0 → Grown s sv (15 + o) b written sv
    unfolding slot
    grow_entry e = record {
      valid = omega arith;
      empty = e;
      free = free;
      inside = inside;
      nonzero = nonzero;
      bits = bits;
      slots = entry_slots;
      zeros = λ a h. rw (ne→== b (sfi_indirect sv.sv_i) (λ z. indirect-ne (sym z))) (zeros a h);
      others = λ c h k. rw (ne→== c (sfi_indirect sv.sv_i) k) (others c h);
      same_super = same_super;
      kept = record {
        size = refl;
        type = refl;
        links = refl;
        ino = refl;
        refs = refl;
        opens = refl;
      };
      IsFs' = IsFs-device IsFs' written.device refl refl;
    }
