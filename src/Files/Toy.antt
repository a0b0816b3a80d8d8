-- ===== src/Files/Toy.antt =====
-- A filesystem library in memory: one device with one file, for the commands on concrete inputs.
use otdb.Base.{ℕ, List, ◌++◌, some, length, drop, leb, ◌==◌, if◌then◌else◌}
use otdb.Base.Int.{ℤ, pos, ◌-ℤ◌}
use otdb.Text.{codes}
use otdb.Otfs.{Otfs, File}

pub record Device : Type 0 where
  pub uid : ℕ
  pub file_id : ℕ
  pub file : File
  pub bytes : List ℕ

abbrev pub device : Device
device = record {
  uid = 7;
  file_id = 2;
  file = record { start = 0; alloc = 8; length = 4; idmod = 0x3602 };
  bytes = codes "abcdefgh";
}

abbrev setfs : ℕ → Device → ℤ × Device
setfs devid d = (if devid == d.uid then pos 0 else pos 1, d)

abbrev found : ℕ → Device → ℤ
found file_id d = if file_id == d.file_id then pos 0 else pos 1

abbrev keep_bytes : File → List ℕ → Device → Device
keep_bytes f bytes d = record d { file = f; bytes = bytes }

abbrev pub toy : Otfs
toy = record {
  Db = Device;
  setfs = setfs;
  activeuid = λ d. d.uid;
  new_fs = λ uid bytes d. (pos 0, record d { uid = uid; bytes = bytes });
  del_fs = λ uid d. (pos 0, record d { uid = 0 });
  errcode = λ call rc. rc -ℤ pos 4096;
  delete = λ block file_id d. (found file_id d, d);
  new = λ block file_id perms alloc d. (pos 0, d);
  chmod = λ block file_id perms d. (found file_id d, d);
  access_mask = λ mode. 0x12;
  block_code = λ block. 3;
  header_size = 12;
  getheader = λ block file_id mode d. (found file_id d, 0);
  worm_get = λ header d. some (record {
    bytes = codes "............";
    idmod = d.file.idmod;
    alloc = d.file.alloc;
    length = d.file.length;
    modtime = 5;
  });
  worm_read = λ address d. d.file.idmod;
  open_file = λ header d. (some d.file, d);
  memptr = λ f d. some d.bytes;
  poke = keep_bytes;
  getmodtime = λ f d. 5;
  store = λ f bytes d. (
    if leb (length bytes) f.alloc then pos 0 else pos 1,
    (
      record f { length = length bytes },
      keep_bytes (record f { length = length bytes }) (bytes ++ drop (length bytes) d.bytes) d,
    ),
  );
  close = λ f d. record d { file = f };
}
