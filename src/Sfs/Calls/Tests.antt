-- ===== src/Sfs/Calls/Tests.antt =====
-- The calls on the file system of Sfs/Sample, whose file a table has open at descriptors 0, to read, and 2, to write.
use cs350_os.Sfs.Map.Look.{Read}
use cs350_os.Sfs.Map.Slots.{file_byte}
use cs350_os.Uio.{blit}
use cs350_os.Sfs.Calls.{vop_write, vop_read}
use cs350_os.Files.Io.{write, read}
use cs350_os.Sfs.{word, half, SfsFs}
use cs350_os.Base.{
  ℕ, update, false, true, [], some, none, arith, refl, ◌≡◌, ◌⊎◌, Bool, ◌≤◌, ◌<◌, ◌+◌, panic, done,
}
use cs350_os.Files.{Files, File}
use cs350_os.Sfs.Vnodes.{Pool, put_vnode, with_fs}
use cs350_os.Sfs.Sample.{sample_fs, sample_vnode, sample-IsFile}
use cs350_os.Sfs.Calls.Transfer.{Opened, bytes_left, moved_on}
use cs350_os.Sfs.Calls.Reads.{read_effects}
use cs350_os.Sfs.Calls.Writes.{write_effects, AllWritten, PartWritten}

abbrev opened_with : ℕ → File
opened_with flag = record { flag = flag; offset = 0; ref_count = 1; vn = 200 }

abbrev open_files : Files
open_files = record {
  tables = update (λ _. false) 7 true;
  fds = update (λ _. λ _. 0) 7 (update (update (λ _. 0) 0 40) 2 60);
  file = update (λ _. opened_with 1) 40 (opened_with 0);
  alive = update (update (λ _. false) 40 true) 60 true;
  closed = [];
}

abbrev in_use : Pool
in_use = record { fs = sample_fs; vnodes = []; heap = update (λ _. none) 200 (some sample_vnode) }

abbrev all_mapped : ℕ → Bool
all_mapped x = true

abbrev blank : ℕ → ℕ
blank a = 0

to_read : Opened open_files 7 0 in_use sample_vnode 10
unfolding word half
to_read = record {
  used = (omega arith, omega arith);
  live = refl;
  here = refl;
  file = sample-IsFile;
  regular = refl;
  sized = omega arith;
  some_bytes = omega arith;
  low = omega arith;
}

to_write : Opened open_files 7 2 in_use sample_vnode 10
unfolding word half
to_write = record {
  used = (omega arith, omega arith);
  live = refl;
  here = refl;
  file = sample-IsFile;
  regular = refl;
  sized = omega arith;
  some_bytes = omega arith;
  low = omega arith;
}

read_effects_example :
    (((x : ℕ) → 4096 ≤ x → x < 4096 + bytes_left sample_vnode 0 10 → all_mapped x ≡ true)
      → (s' : SfsFs) × (read (vop_read all_mapped) (in_use, blank) open_files 7 0 4096 10
          ≡ done (
            0,
            some (bytes_left sample_vnode 0 10),
            moved_on open_files 40 (bytes_left sample_vnode 0 10),
            (
              put_vnode (with_fs in_use s') 200 sample_vnode,
              blit blank 4096 (file_byte sample_fs sample_vnode) 0 (bytes_left sample_vnode 0 10),
            ),
          ))
        × Read sample_fs sample_vnode s')
    × ((x : ℕ)
        → 4096 ≤ x
        → x < 4096 + bytes_left sample_vnode 0 10
        → all_mapped x ≡ false
        → read (vop_read all_mapped) (in_use, blank) open_files 7 0 4096 10 ≡ panic)
read_effects_example =
    read_effects all_mapped open_files 7 0 in_use sample_vnode blank 4096 10 to_read (omega arith)
      (omega arith)

write_effects_example :
    (((x : ℕ) → 4096 ≤ x → x < 4096 + 10 → all_mapped x ≡ true)
      → AllWritten all_mapped open_files 7 2 in_use sample_vnode blank 4096 10 to_write
          (write (vop_write all_mapped) (in_use, blank) open_files 7 2 4096 10)
        ⊎ PartWritten all_mapped open_files 7 2 in_use sample_vnode blank 4096 10 to_write
            (write (vop_write all_mapped) (in_use, blank) open_files 7 2 4096 10))
    × ((x : ℕ)
        → 4096 ≤ x
        → x < 4096 + 10
        → all_mapped x ≡ false
        → (write (vop_write all_mapped) (in_use, blank) open_files 7 2 4096 10 ≡ panic)
          ⊎ PartWritten all_mapped open_files 7 2 in_use sample_vnode blank 4096 10 to_write
              (write (vop_write all_mapped) (in_use, blank) open_files 7 2 4096 10))
write_effects_example =
    write_effects all_mapped open_files 7 2 in_use sample_vnode blank 4096 10 to_write (omega arith)
      (omega arith) (omega arith) (omega arith) (omega arith)
