-- ===== src/Save/Archive.antt =====
-- cmd_save of main/cmd_save.c: the directory of an archive, with one directory for each device and one
-- JSON file for each file of the template. The disk is a parameter, and so are the filesystems of the
-- devices, which are only read: a file is looked up by its device, in place of the one that is selected.
use otdb.Base.{
  ℕ, ◌+◌, List, [], ◌∷◌, ◌++◌, Bool, Option, none, some, length, leb, ◌==◌, if◌then◌else◌,
}
use otdb.Base.Maybe.{◌>>=◌}
use otdb.Base.Int.{ℤ, pos, negsuc}
use otdb.Text.{codes, show_hex}
use otdb.Output.{jsonout_err}
use otdb.Args.{
  arglist, Parsed, argfield_jsonout, argfield_deviceidlist, argfield_compress, argfield_archive,
}
use otdb.Args.Extract.{extract_args}
use otdb.Otfs.{Otfs, File}
use otdb.Files.{is_zero}
use otdb.DevList.{next_devices}
use otdb.Cjson.{Cjson, Floats}
use otdb.JsonTools.{extract_id, extract_blockid}
use otdb.Save.{Saved, Export, outside, skipped, exported, hexuid, file_path, export_file}

-- What opendir finds: `absent` is ENOENT.
pub data Directory : Type 0 where
  present absent unreadable : Directory

-- cmd_rmdir, opendir, mkdir, and jst_writeout of the template and of a file.
pub record Disk : Type 1 where
  pub State : Type 0
  pub rmdir : List ℕ → State → State
  pub opendir : List ℕ → State → Directory
  pub mkdir : List ℕ → State → Bool × State
  pub write_template : List ℕ → State → Bool × State
  pub write_file : List ℕ → Saved → State → State

-- For a device: vl_open with a block and a file, vl_memptr as the place in the memory, the memory, and
-- vl_getmodtime.
pub record Source : Type 0 where
  pub open_r : ℕ → ℕ → ℕ → Option File
  pub memptr : ℕ → File → Option ℕ
  pub memory : ℕ → List ℕ
  pub getmodtime : ℕ → File → ℕ

abbrev save_fields : ℕ
save_fields = argfield_jsonout + argfield_deviceidlist + argfield_compress + argfield_archive

-- `none` where the path does not leave room for a terminator.
unfoldable archive_root : List ℕ → Option (List ℕ)
archive_root path = if leb 207 (length path) then none else some path

unfoldable pub with_slash : List ℕ → Option (List ℕ)
with_slash [] = none
with_slash (c ∷ []) = some (if c == b'/' then c ∷ [] else c ∷ (b'/' ∷ []))
with_slash (c ∷ d ∷ path) = elim (with_slash (d ∷ path)) [ none ↦ none | some p ↦ some (c ∷ p) ]

module _ (cj : Cjson) (fl : Floats) (disk : Disk) (src : Source) where
  unfoldable save_export :
      ℕ → List ℕ → File → cj.Item → cj.Item → Export → disk.State → Option disk.State
  save_export uid dir fp meta obj outside st = none
  save_export uid dir fp meta obj skipped st = some st
  save_export uid dir fp meta obj (exported c) st =
      let saved : Saved = record {
        path = file_path (extract_id cj (some meta)) (cj.name obj);
        name = cj.name obj;
        devid = hexuid uid;
        modtime = src.getmodtime uid fp;
        contents = c;
      } in
      some (disk.write_file (dir ++ saved.path) saved st)

  unfoldable save_located :
      ℕ → List ℕ → File → cj.Item → cj.Item → Option ℕ → disk.State → Option disk.State
  save_located uid dir fp meta obj none st = some st
  save_located uid dir fp meta obj (some base) st =
      save_export uid dir fp meta obj (export_file cj fl base fp meta obj (src.memory uid)) st

  unfoldable save_opened :
      ℕ → List ℕ → cj.Item → cj.Item → Option File → disk.State → Option disk.State
  save_opened uid dir meta obj none st = some st
  save_opened uid dir meta obj (some fp) st =
      save_located uid dir fp meta obj (src.memptr uid fp) st

  unfoldable save_meta : ℕ → List ℕ → cj.Item → Option cj.Item → disk.State → Option disk.State
  save_meta uid dir obj none st = some st
  save_meta uid dir obj (some meta) st =
      save_opened uid dir meta obj
        (src.open_r uid (extract_blockid cj (some meta)) (extract_id cj (some meta))) st

  -- The loop over the files of the template, for one device.
  unfoldable save_objects : ℕ → List ℕ → List cj.Item → disk.State → Option disk.State
  save_objects uid dir [] st = some st
  save_objects uid dir (obj ∷ objs) st = do
    st' ← save_meta uid dir obj (cj.get_item obj (codes "_meta")) st
    save_objects uid dir objs st'

  -- The loop over the devices: it ends at a directory that cannot be made.
  unfoldable save_devices : List ℕ → List cj.Item → List ℕ → disk.State → Option (ℤ × disk.State)
  save_devices root objs [] st = some (pos 0, st)
  save_devices root objs (uid ∷ uids) st =
      let dir = root ++ show_hex uid in
      let (made, st1) = disk.mkdir dir st in
      let rest : Option (ℤ × disk.State) = elim (save_objects uid dir objs st1) [
        | none ↦ none
        | some st2 ↦ save_devices root objs uids st2
      ] in
      if made then rest else some (negsuc 7, st1)

  -- The template goes to a directory of its own.
  unfoldable save_template : List ℕ → List cj.Item → List ℕ → disk.State → Option (ℤ × disk.State)
  save_template root objs uids st =
      let (made, st1) = disk.mkdir (root ++ codes "_TMPL") st in
      let (written, st2) = disk.write_template (root ++ codes "_TMPL/tmpl.json") st1 in
      if made
      then (if written then save_devices root objs uids st2 else some (negsuc 6, st2))
      else some (negsuc 5, st1)

  unfoldable save_absent :
      List ℕ → List cj.Item → List ℕ → Directory → disk.State → Option (ℤ × disk.State)
  save_absent path objs uids present st = some (negsuc 2, st)
  save_absent path objs uids unreadable st = some (negsuc 3, st)
  save_absent path objs uids absent st =
      let (made, st1) = disk.mkdir path st in
      let rest : Option (ℤ × disk.State) = elim (with_slash path) [
        | none ↦ none
        | some root ↦ save_template root objs uids st1
      ] in
      if made then rest else some (negsuc 4, st1)

  -- An archive that is there is removed first.
  unfoldable save_archive :
      Option (List ℕ) → List cj.Item → List ℕ → disk.State → Option (ℤ × disk.State)
  save_archive none objs uids st = none
  save_archive (some path) objs uids st =
      let st1 = disk.rmdir path st in save_absent path objs uids (disk.opendir path st1) st1

  unfoldable save_end :
      Bool → ℕ → List ℕ → Option (ℤ × disk.State) → Option ((ℤ × List ℕ) × disk.State)
  save_end json dstmax mem none = none
  save_end json dstmax mem (some (rc, st)) =
      let (mem1, n) = jsonout_err mem dstmax json rc (codes "save") in some ((n, mem1), st)

  -- cmd_save. `tmpl` are the files of the template, and `none` where the template or the database is a
  -- null pointer; `all` are the devices of the database.
  unfoldable cmd_save :
      (List ℕ → List ℕ → ℤ → List ℕ × ℤ)
      → (fs : Otfs) → List ℕ
      → Option (List cj.Item)
      → Parsed
      → List ℕ
      → ℕ
      → fs.Db
      → disk.State
      → Option ((ℤ × List ℕ) × disk.State)
  cmd_save bintex_ss fs all none p mem dstmax db st = some ((negsuc 0, mem), st)
  cmd_save bintex_ss fs all (some objs) p mem dstmax db st =
      let (rc, a) = extract_args bintex_ss p (arglist save_fields) in
      let uids =
        if length a.devid_strlist == 0 then all else (next_devices fs a.devid_strlist db).0 in
      save_end a.jsonout_flag dstmax mem (
        if is_zero rc
        then save_archive (archive_root a.archive_path) objs uids st
        else some (negsuc 1, st))
