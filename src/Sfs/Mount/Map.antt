-- ===== src/Sfs/Mount/Map.antt =====
-- The free map, written to the disk and read back.
use cs350_os.Bitmap.{Bitmap, create}
use cs350_os.Files.Io.{uio_write, uio_read}
use native.Mathlib.Decide.{ℕ_discrete, dec_lt}
use cs350_os.Uio.{blit}
use cs350_os.Sfs.Space.{wblock_ok, rblock_ok}
use cs350_os.Disk.Sector.{after_write, after_read}
use cs350_os.Bitmap.Create.{create_lem, zeros}
use cs350_os.Base.{
  some, none, ◌/◌, ◌%◌, ◌==◌, length-replicate, ◌∷◌, [], ℕ, List, ◌≤◌, ◌<◌, ◌+◌, ◌^◌, ◌≡◌, ◌*◌,
  length, done, arith, suc, eq→==, ne→==, zero, refl, leb, false, ◌-◌, ◌&&◌, ap, ltb, sym, true,
  ◌∙◌,
}
use cs350_os.Sfs.{SfsFs}
use cs350_os.Disk.{lhd_ok, Disk}
use cs350_os.Sfs.Mount.{
  read_map, write_map, sfs_mapio, region, fits, put_sector, load_map, first_bytes, bitblocks,
}

-- A disk that works.
pub record Works (s : SfsFs) : Type 0 where
  pub small : s.device.d_blocks ≤ 2 ^ 22
  pub works : (j : ℕ) → s.device.status j ≡ lhd_ok

-- Sector `c` of the disk holds the bytes of the map for which it is there.
abbrev pub HoldsMap : SfsFs → List ℕ → ℕ → Type 0
HoldsMap s v c = (a : ℕ) → a < 512 → s.device.sector (2 + c) a ≡ region v (c * 512 + a)

pub write_map_lem :
    (n j : ℕ) (s : SfsFs) (v : List ℕ)
    → Works s
    → 2 + j + n ≤ s.device.d_blocks
    → (j + n) * 512 ≤ length v
    → ((c : ℕ) → c < j → HoldsMap s v c)
    → (d : Disk) × (write_map n j s v ≡ done (0, record s { device = d }))
      × Works (record s { device = d })
      × (d.d_blocks ≡ s.device.d_blocks)
      × (d.sector 0 ≡ s.device.sector 0)
      × ((c : ℕ) → c < j + n → HoldsMap (record s { device = d }) v c)
unfolding write_map
write_map_lem zero j s v w there room before =
    (s.device, refl, w, refl, refl, λ c h. before c (omega arith))
write_map_lem (suc n) j s v w there room before =
    let whole : fits v j ≡ true = ground arith in
    let buf : ℕ → ℕ = λ a. region v (j * 512 + a) in
    let s1 : SfsFs = record s { device = after_write s.device (2 + j) buf 0 } in
    let apart : s1.device.sector 0 ≡ s.device.sector 0 = rw (ne→== 0 (2 + j) (omega arith)) refl in
    let wrote = wblock_ok s w.works (2 + j) (omega arith) w.small buf in
    let next : (c : ℕ) → c < j + 1 → HoldsMap s1 v c = λ c h a lt. elim (ℕ_discrete c j) [
      | yes e ↦ rw (eq→== (2 + c) (2 + j) (omega (arith, e))) (ground (arith, e, lt))
      | no ne ↦
          rw (ne→== (2 + c) (2 + j) (λ e. ne (omega (arith, e)))) (before c (omega arith) a lt)
    ] in
    let (d, ran, w', blocks, super, all) =
      write_map_lem n (j + 1) s1 v (record { small = w.small; works = w.works }) (omega arith)
        (omega arith) next in
    (d, rw (whole, wrote) ran, w', blocks, super ∙ apart, λ c h. all c (omega arith))

-- The list of some bytes of memory, and the bytes of a list.
length-first_bytes : (n : ℕ) (f : ℕ → ℕ) → length (first_bytes n f) ≡ n
unfolding first_bytes
length-first_bytes zero f = refl
length-first_bytes (suc n) f = ap suc (length-first_bytes n (λ a. f (a + 1)))

region-first_bytes : (n : ℕ) (f : ℕ → ℕ) (a : ℕ) → a < n → region (first_bytes n f) a ≡ f a
unfolding first_bytes
region-first_bytes zero f a h = absurd (omega arith)
region-first_bytes (suc n) f zero h = refl
region-first_bytes (suc n) f (suc a) h =
    let e : a + 1 ≡ suc a = omega arith in
    region-first_bytes n (λ b. f (b + 1)) a (omega arith) ∙ ap f e

first_bytes-region :
    (v : List ℕ) (f : ℕ → ℕ)
    → ((a : ℕ) → a < length v → f a ≡ region v a)
    → first_bytes (length v) f ≡ v
unfolding first_bytes
first_bytes-region [] f same = refl
first_bytes-region (x ∷ v) f same =
    let rest =
      first_bytes-region v (λ a. f (a + 1))
        (λ a h. let e : a + 1 ≡ suc a = omega arith in ap f e ∙ same (suc a) (omega arith)) in
    let head : f 0 ≡ x = same 0 (omega arith) in rw (rest, head) refl

same_list :
    (v w : List ℕ)
    → length v ≡ length w
    → ((a : ℕ) → a < length w → region v a ≡ region w a)
    → v ≡ w
same_list v w e same =
    sym (first_bytes-region v (region v) (λ a h. refl))
    ∙ ap (λ n. first_bytes n (region v)) e
    ∙ first_bytes-region w (region v) same

read_map_lem :
    (n j : ℕ) (s : SfsFs) (v want : List ℕ)
    → Works s
    → 2 + j + n ≤ s.device.d_blocks
    → (j + n) * 512 ≤ length v
    → ((c : ℕ) → c < j + n → HoldsMap s want c)
    → ((a : ℕ) → a < j * 512 → region v a ≡ region want a)
    → (v' : List ℕ) × (d : Disk) × (read_map n j s v ≡ done (0, v', record s { device = d }))
      × (length v' ≡ length v)
      × ((a : ℕ) → a < (j + n) * 512 → region v' a ≡ region want a)
unfolding read_map put_sector
read_map_lem zero j s v want w there room holds before =
    (v, s.device, refl, refl, λ a h. before a (omega arith))
read_map_lem (suc n) j s v want w there room holds before =
    let s1 : SfsFs = record s { device = after_read s.device (2 + j) } in
    let sector : ℕ → ℕ = blit (λ a. region v (j * 512 + a)) 0 (s.device.sector (2 + j)) 0 512 in
    let stored : ℕ → ℕ = blit (region v) (j * 512) sector 0 512 in
    let v1 : List ℕ = first_bytes (length v) stored in
    let len : length v1 ≡ length v = length-first_bytes (length v) stored in
    let whole : fits v j ≡ true = ground arith in
    let got = rblock_ok s w.works (2 + j) (omega arith) w.small (λ a. region v (j * 512 + a)) in
    let next : (a : ℕ) → a < (j + 1) * 512 → region v1 a ≡ region want a = λ a h.
      region-first_bytes (length v) stored a (omega arith) ∙ elim (dec_lt a (j * 512)) [
        | yes lt ↦ let out : leb (j * 512) a ≡ false = ground arith in rw out (before a lt)
        | no ge ↦
            let k : ℕ = a - j * 512 in
            let inside : (leb (j * 512) a && ltb a (j * 512 + 512)) ≡ true = ground arith in
            let all_of : (leb 0 (0 + k) && ltb (0 + k) 512) ≡ true = ground arith in
            let at : j * 512 + (0 + (0 + k - 0)) ≡ a = omega arith in
            rw (inside, all_of)
              (holds j (omega arith) (0 + (0 + k - 0)) (omega arith) ∙ ap (region want) at)
      ] in
    let (v', d, ran, len', all) =
      read_map_lem n (j + 1) s1 v1 want (record { small = w.small; works = w.works }) (omega arith)
        (omega (arith, len)) (λ c h. holds c (omega arith)) next in
    (v', d, rw (got, whole) ran, len' ∙ len, λ a h. all a (omega arith))

-- A disk that holds the map `want` gives it to a bitmap of as many bytes, and to a mount.
module _ (s : SfsFs) (want : List ℕ) (w : Works s) (room : 2 + bitblocks s ≤ s.device.d_blocks)
    (sized : length want ≡ bitblocks s * 512) where
  pub read_back :
      length s.freemap.v ≡ bitblocks s * 512
      → ((c : ℕ) → c < bitblocks s → HoldsMap s want c)
      → (d : Disk) × (sfs_mapio s uio_read
          ≡ done (0, record s { device = d; freemap = record s.freemap { v = want } }))
  unfolding sfs_mapio
  read_back long holds =
      let (v', d, back, len, same) =
        read_map_lem (bitblocks s) 0 s s.freemap.v want w room (omega (arith, long))
          (λ c h. holds c (omega (arith, h))) (λ a h. absurd (omega (arith, h))) in
      let list : v' ≡ want =
        same_list v' want (omega (arith, len, long, sized))
          (λ a h. same a (omega (arith, h, sized))) in
      (d, rw (back, list) refl)

module _ (s : SfsFs) (want : List ℕ) (w : Works s) (room : 2 + bitblocks s ≤ s.device.d_blocks)
    (sized : length want ≡ bitblocks s * 512) where
  pub load_back :
      ((c : ℕ) → c < bitblocks s → HoldsMap s want c)
      → (d : Disk) × (load_map true true s
          ≡ done (
            0,
            some (record {
              fs = record s {
                device = d;
                freemap = record { nbits = bitblocks s * 4096; v = want };
              };
              vnodes = [];
              heap = λ a. none;
            }),
          ))
  unfolding load_map
  load_back holds =
      let n : ℕ = bitblocks s * 4096 in
      let b : Bitmap = record { nbits = n; v = zeros (n / 8) } in
      let eighth : (n % 8 == 0) ≡ true = ground arith in
      let made : create true true n ≡ done (some b) = create_lem n (omega arith) ∙ rw eighth refl in
      let len : length (zeros (n / 8)) ≡ bitblocks s * 512 =
        length-replicate {A = ℕ} (n / 8) 0 ∙ omega arith in
      let (d, loaded) =
        read_back (record s { freemap = b }) want (record { small = w.small; works = w.works }) room
          sized len (λ c h. holds c (omega (arith, h))) in
      (d, rw (made, loaded) refl)

module _ (s : SfsFs) (works : (j : ℕ) → s.device.status j ≡ lhd_ok)
    (small : s.device.d_blocks ≤ 2 ^ 22) (room : 2 + bitblocks s ≤ s.device.d_blocks)
    (sized : length s.freemap.v ≡ bitblocks s * 512) where
  -- On a disk that works, and has room for the sectors of the free map, `sfs_mapio` writes the map, of as many
  -- bytes as these sectors hold, and returns 0. From then on `sfs_mapio` reads that same map into any bitmap of
  -- the same number of bytes, and returns 0; and a mount that has the superblock, and its memory,
  -- makes a bitmap of that number of bytes and ends with that same map in it.
  pub mapio-round :
      (d : Disk) × (sfs_mapio s uio_write ≡ done (0, record s { device = d }))
      × ((b : Bitmap)
          → length b.v ≡ length s.freemap.v
          → (d' : Disk) × (sfs_mapio (record s { device = d; freemap = b }) uio_read
              ≡ done (0, record s { device = d'; freemap = record b { v = s.freemap.v } })))
      × (d' : Disk) × (load_map true true (record s { device = d })
          ≡ done (
            0,
            some (record {
              fs = record s {
                device = d';
                freemap = record { nbits = bitblocks s * 4096; v = s.freemap.v };
              };
              vnodes = [];
              heap = λ a. none;
            }),
          ))
  unfolding sfs_mapio load_map
  mapio-round =
      let (d, ran, w, blocks, super, all) =
        write_map_lem (bitblocks s) 0 s s.freemap.v (record { small = small; works = works }) room
          (omega (arith, sized)) (λ c h. absurd (omega (arith, h))) in
      let loaded =
        load_back (record s { device = d }) s.freemap.v w (omega (arith, room, blocks)) sized
          (λ c h. all c (omega (arith, h))) in
      (
        d,
        ran,
        λ b e.
            read_back (record s { device = d; freemap = b }) s.freemap.v
              (record { small = w.small; works = w.works }) (omega (arith, room, blocks)) sized
              (e ∙ sized) (λ c h. all c (omega (arith, h))),
        loaded.0,
        loaded.1,
      )
