-- ===== src/Files/Write/Tests.antt =====
-- cmd_write and cmd_pub on a small filesystem.
use otdb.Base.{
  ◌+◌, ℕ, ◌-◌, ◌<◌, ◌≡◌, ◌↔◌, ◌⊎◌, refl, List, false, none, some, arith, min, take, drop, length,
  replicate,
}
use otdb.Base.Int.{ℤ, pos, negsuc}
use otdb.Text.{codes}
use otdb.Args.{Arglist, arglist}
use otdb.Files.{selected, select, Reply, reply_err}
use otdb.Files.Toy.{Device, device, toy}
use otdb.Files.Write.{
  clip, copied, wrote, attempt, sync, write_finish, pub_finish, pub_fields, write_reply,
}
use otdb.Files.Write.Exact.{file_after, db_after, attempt-exact, count}
use otdb.Files.Read.{located, read_found}
use otdb.Files.RoundTrip.{closed, read_back, replied as read_reply_of, read-write}
use otdb.Files.Write.Inside.{copied-inside}
use otdb.Files.Write.Errors.{sync-none_iff, write_finish-pub, without_json}

-- Three bytes to file 2 of device 7 from its offset 6 on; and the same for file 3.
abbrev wanted : ℕ → Arglist
wanted file_id = record (arglist pub_fields) {
  filedata = some (codes "XYZ");
  filedata_size = pos 3;
  devid = 7;
  file_id = file_id;
  range_lo = 6;
  range_hi = 65535;
}

device_selected : select toy 7 device ≡ selected device
unfolding select
device_selected = refl

attempt-exact_example :
    attempt toy (pos 0) (wanted 2) device
    ≡ wrote
        (file_after toy (wanted 2) 3 device.file device.bytes device)
        (clip (pos 3) 6 (min 65535 8))
        (min 65535 8)
        (db_after toy (wanted 2) 3 device.file device.bytes device)
attempt-exact_example =
    attempt-exact toy (wanted 2) 3 device.file device.bytes device device device 0 device_selected
      refl refl refl refl (omega arith)

stored : (db_after toy (wanted 2) 3 device.file device.bytes device).bytes ≡ codes "abcdefXY"
stored = refl

abbrev Stays : ℕ → ℕ → ℕ → ℕ → List ℕ → List ℕ → Type 0
Stays n lo hi alloc bytes memory =
    (length (copied lo (clip (pos n) lo (min hi alloc)) bytes memory) ≡ length memory)
    × (take lo (copied lo (clip (pos n) lo (min hi alloc)) bytes memory) ≡ take lo memory)
    × (drop alloc (copied lo (clip (pos n) lo (min hi alloc)) bytes memory) ≡ drop alloc memory)
    × (drop (lo + (hi - lo)) (copied lo (clip (pos n) lo (min hi alloc)) bytes memory)
        ≡ drop (lo + (hi - lo)) memory)

copied-inside_example : Stays 3 1 3 8 (codes "XYZ") (codes "abcdefgh")
copied-inside_example =
    copied-inside 3 1 3 8 (codes "XYZ") (codes "abcdefgh") (omega arith) (omega arith)

abbrev echo : List ℕ → List ℕ → ℤ × List ℕ
echo line mem = (negsuc 0, line)

-- 300 bytes.
abbrev long_write : Arglist
long_write = record (wanted 2) { filedata = some (replicate 300 7); filedata_size = pos 300 }

sync-none_iff_example :
    (sync toy long_write 1024 device.file (clip (pos 300) 6 400) 400 device (some echo) ≡ none)
    ↔ ((false ≡ false) × ((400 < 6) ⊎ (256 < min 300 (400 - 6))))
sync-none_iff_example =
    sync-none_iff toy long_write 1024 device.file 300 400 device echo (omega arith) (omega arith)

abbrev replied : Reply toy
replied = reply_err toy (codes "XYZ") 1024 false (codes "w") none (pos 0, device)

finished : write_finish toy none (wanted 2) 1024 (wrote device.file (pos 3) 8 device) ≡ some replied
unfolding write_finish write_reply sync
finished = refl

write_finish-pub_example :
    (replied.db ≡ (pub_finish toy (wanted 2) 1024 (wrote device.file (pos 3) 8 device)).db)
    × (without_json false replied.rc
        ≡ without_json false
            (pub_finish toy (wanted 2) 1024 (wrote device.file (pos 3) 8 device)).rc)
write_finish-pub_example =
    write_finish-pub toy (wanted 2) 1024 (wrote device.file (pos 3) 8 device) replied none finished

abbrev device_after : Device
device_after = closed toy (wanted 2) 3 device.file device.bytes device

read-write_example :
    (attempt toy (pos 0) (wanted 2) device
      ≡ wrote
          (file_after toy (wanted 2) 3 device.file device.bytes device)
          (clip (pos 3) 6 (min 65535 8))
          (min 65535 8)
          (db_after toy (wanted 2) 3 device.file device.bytes device))
    × (read_found toy none 90000
          (read_back (wanted 2) 3 device.file)
          64
          (codes "....")
          (located 0 (closed toy (wanted 2) 3 device.file device.bytes device))
        ≡ some (
            read_reply_of toy
              (wanted 2)
              3
              device.file
              device.bytes
              device
              device_after
              0
              (codes "....")
              (count (wanted 2) 3 device.file)
              (take (count (wanted 2) 3 device.file) (codes "XYZ"))))
read-write_example =
    read-write toy (wanted 2) 3 device.file device.bytes device device device device_after 0 none
      90000 64 (codes "....") device_selected refl refl refl refl (omega arith) (omega arith)
      (omega arith) (omega arith) refl refl
