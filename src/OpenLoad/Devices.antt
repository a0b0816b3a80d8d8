-- ===== src/OpenLoad/Devices.antt =====
-- The directories of an archive in cmd_open and cmd_load of main/cmd_open_load.c: each is a device.
-- Where a result is an Option, `none` is an access outside memory.
pub mod Paths
use otdb.Base.{
  ℕ, ◌+◌, List, [], ◌∷◌, ◌++◌, Bool, true, false, Option, none, some, take, length, ◌==◌, ◌&&◌,
  if◌then◌else◌,
}
use otdb.Base.Int.{ℤ, pos, negsuc, ltb_ℤ}
use otdb.Text.{codes, strtoull, strtoull_end}
use otdb.Output.{jsonout_err}
use otdb.Args.{Arglist, arglist, Parsed, argfield_jsonout, argfield_deviceidlist, argfield_archive}
use otdb.Args.Extract.{extract_args}
use otdb.Files.{is_zero}
use otdb.Cjson.{Cjson, Floats}
use otdb.OpenLoad.DataFile.{Volume}
use otdb.OpenLoad.DataFile.Merge.{cmdsub_datafile}

-- An entry of a directory: `is_dir` is DT_DIR.
pub record DirEntry : Type 0 where
  pub is_dir : Bool
  pub d_name : List ℕ

-- The name is one hexadecimal number for strtoull.
unfoldable pub is_hex_name : List ℕ → Bool
is_hex_name [] = false
is_hex_name (c ∷ name) = length (strtoull_end (c ∷ name) 16) == 0

-- What snprintf leaves of "/%s" in 16 bytes.
unfoldable pub device_path : List ℕ → List ℕ
device_path name = take 15 (codes "/" ++ name)

unfoldable load_fields : ℕ
load_fields = argfield_jsonout + argfield_deviceidlist + argfield_archive

-- Its search of the list is without a result.
unfoldable uid_in_list : List (List ℕ) → ℕ → Bool
uid_in_list uidlist cmp = true

unfoldable is_chosen : List (List ℕ) → ℕ → Bool
is_chosen uidlist uid = if length uidlist == 0 then true else uid_in_list uidlist uid

-- The disk: the entries of an archive; and for the directory of a device, what the loop of cmdsub_datafile
-- reads in it: the last result of jst_aggregate_json, and the data. `none` is a failing opendir.
pub record Archives (cj : Cjson) : Type 0 where
  pub archive_dir : List ℕ → Option (List DirEntry)
  pub device_dir : List ℕ → Option (ℤ × Option cj.Item)

-- What the database is asked beside its files: otfs_setfs, otfs_new with the template's bytes, otfs_del,
-- ERRCODE of otfs_new, and whether talloc_size succeeds.
pub record Database (vol : Volume) : Type 0 where
  pub setfs : ℕ → vol.Db → ℤ × vol.Db
  pub new_fs : ℕ → vol.Db → ℤ × vol.Db
  pub del_fs : ℕ → vol.Db → vol.Db
  pub errcode : ℤ → ℤ
  pub memory_left : vol.Db → Bool

module _ (cj : Cjson) (fl : Floats) (vol : Volume) (odb : Database vol) (disk : Archives cj)
    (now : ℕ) (tmpl : cj.Item) where
  abbrev Loading : Type 0
  Loading = Option (ℤ × vol.Db)

  unfoldable pub merge_dir : ℕ → Option (ℤ × Option cj.Item) → vol.Db → Loading
  merge_dir uid none db = some (negsuc 7, db)
  merge_dir uid (some (rc, found)) db = cmdsub_datafile cj fl vol now tmpl uid rc found db

  -- cmd_open: the new filesystem is taken back on an error.
  unfoldable pub undo : ℕ → Loading → Loading
  undo uid none = none
  undo uid (some (rc, db)) = some (rc, if is_zero rc then db else odb.del_fs uid db)

  unfoldable pub open_new : ℕ → List ℕ → ℤ × vol.Db → Loading
  open_new uid path (rc, db) =
      if is_zero rc then merge_dir uid (disk.device_dir path) db else some (odb.errcode rc, db)

  unfoldable pub open_device : List ℕ → List ℕ → vol.Db → Loading
  open_device root name db =
      let uid = strtoull name 16 in
      if odb.memory_left db
      then undo uid (open_new uid (root ++ device_path name) (odb.new_fs uid db))
      else some (negsuc 6, db)

  -- The loop of cmd_open over the entries: an entry that is no device leaves `rc`.
  unfoldable pub open_devices : List ℕ → List DirEntry → ℤ → vol.Db → Loading
  open_devices root [] rc db = some (rc, db)
  open_devices root (ent ∷ ents) rc db =
      if ltb_ℤ rc (pos 0)
      then some (rc, db)
      else if ent.is_dir && is_hex_name ent.d_name
      then elim (open_device root ent.d_name db) [
        | none ↦ none
        | some (rc1, db1) ↦ open_devices root ents rc1 db1
      ]
      else open_devices root ents rc db

  -- cmd_load: a device that is not in the database is passed over.
  unfoldable load_found : ℕ → Option (ℤ × Option cj.Item) → ℤ × vol.Db → Loading
  load_found uid found (rc, db) = if is_zero rc then merge_dir uid found db else some (pos 0, db)

  unfoldable load_device : List ℕ → List ℕ → vol.Db → Loading
  load_device root name db =
      let uid = strtoull name 16 in
      elim (disk.device_dir (root ++ device_path name)) [
        | none ↦ some (negsuc 7, db)
        | some found ↦ load_found uid (some found) (odb.setfs uid db)
      ]

  unfoldable load_devices : List ℕ → List (List ℕ) → List DirEntry → vol.Db → Loading
  load_devices root uidlist [] db = some (pos 0, db)
  load_devices root uidlist (ent ∷ ents) db =
      if ent.is_dir && (is_hex_name ent.d_name && is_chosen uidlist (strtoull ent.d_name 16))
      then elim (load_device root ent.d_name db) [
        | none ↦ none
        | some (rc, db1) ↦ if is_zero rc then load_devices root uidlist ents db1 else some (rc, db1)
      ]
      else load_devices root uidlist ents db

  -- The archive is the directory of one device: it is read through a null pointer.
  unfoldable load_single : List (List ℕ) → ℕ → vol.Db → Loading
  load_single uidlist uid db =
      let (rc, db1) = odb.setfs uid db in
      if is_chosen uidlist uid
      then (if is_zero rc then none else some (pos 0, db1))
      else some (negsuc 3, db)

  unfoldable load_opened : Arglist → Option (List DirEntry) → vol.Db → Loading
  load_opened a none db = some (negsuc 2, db)
  load_opened a (some ents) db =
      if is_hex_name a.archive_path
      then load_single a.devid_strlist (strtoull a.archive_path 16) db
      else load_devices (take 223 a.archive_path) a.devid_strlist ents db

  unfoldable load_end : Bool → ℕ → List ℕ → Loading → Option ((ℤ × List ℕ) × vol.Db)
  load_end json dstmax mem none = none
  load_end json dstmax mem (some (rc, db)) =
      let (mem1, n) = jsonout_err mem dstmax json rc (codes "load") in some ((n, mem1), db)

  -- cmd_load, where the template and the database are there as `is_open` says.
  unfoldable cmd_load :
      (List ℕ → List ℕ → ℤ → List ℕ × ℤ)
      → Bool
      → Parsed
      → List ℕ
      → ℕ
      → vol.Db
      → Option ((ℤ × List ℕ) × vol.Db)
  cmd_load bintex_ss is_open p mem dstmax db =
      let (rc, a) = extract_args bintex_ss p (arglist load_fields) in
      if is_open
      then load_end a.jsonout_flag dstmax mem (
          if is_zero rc
          then load_opened a (disk.archive_dir a.archive_path) db
          else some (negsuc 1, db))
      else some ((negsuc 0, mem), db)
