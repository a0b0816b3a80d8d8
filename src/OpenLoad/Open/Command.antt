-- ===== src/OpenLoad/Open/Command.antt =====
-- cmd_open of main/cmd_open_load.c, from its arguments to its reply. Where a result is an Option, `none` is
-- an access outside memory.
use otdb.Base.{ℕ, ◌+◌, List, ◌++◌, Bool, Option, none, some, take, replicate, if◌then◌else◌}
use otdb.Base.Int.{ℤ, pos, negsuc, ◌-ℤ◌}
use otdb.Text.{codes}
use otdb.Output.{jsonout_err}
use otdb.Args.{arglist, Parsed, argfield_jsonout, argfield_archive}
use otdb.Args.Extract.{extract_args}
use otdb.Files.{is_zero}
use otdb.Cjson.{Cjson, Floats}
use otdb.OpenLoad.{FsHeader, Tables, Template, refused, built, build_template}
use otdb.OpenLoad.DataFile.{Volume}
use otdb.OpenLoad.Devices.{Archives, Database, open_devices}
use otdb.OpenLoad.Open.{FilledTables, fill_files, Attached, Copied, no_size, finish_open}

-- The template's filesystem: its header, its file table, and its memory.
pub record TemplateFs : Type 0 where
  pub header : FsHeader
  pub tables : Tables
  pub memory : List ℕ

-- What cmd_open is given: what the loop over the directory _TMPL reads, as Archives.device_dir does;
-- otfs_init and its ERRCODE; the sizes of the two headers; vl_get_fsalloc; whether the filesystem can be
-- allocated; the database with a template to make filesystems of; the copy of the template; and
-- otfs_deinit with its ERRCODE.
pub record OpenSetup (cj : Cjson) (vol : Volume) : Type 0 where
  pub template_dir : List ℕ → Option (ℤ × Option cj.Item)
  pub init : ℤ × vol.Db
  pub init_errcode : ℤ → ℤ
  pub fsheader_size : ℕ
  pub header_size : ℕ
  pub get_fsalloc : FsHeader → ℕ
  pub memory_left : Bool
  pub database : TemplateFs → Database vol
  pub copy_template : cj.Item → Copied cj.Item
  pub deinit : vol.Db → ℤ
  pub deinit_errcode : ℤ → ℤ

abbrev open_fields : ℕ
open_fields = argfield_jsonout + argfield_archive

-- What there is at cmd_open_CLOSE.
pub record Stage (cj : Cjson) (vol : Volume) : Type 0 where
  pub rc : ℤ
  pub db : Option vol.Db
  pub tmpl : Option cj.Item
  pub tmpl_fs : Option TemplateFs

module _ (cj : Cjson) (fl : Floats) (vol : Volume) (s : OpenSetup cj vol) (disk : Archives cj)
    (now : ℕ) where
  abbrev at_close : ℤ → Option vol.Db → Option cj.Item → Option TemplateFs → Option (Stage cj vol)
  at_close rc db tmpl fs =
      let stage : Stage cj vol = record { rc = rc; db = db; tmpl = tmpl; tmpl_fs = fs } in
      some stage

  unfoldable pub open_walked : cj.Item → TemplateFs → Option (ℤ × vol.Db) → Option (Stage cj vol)
  open_walked tmpl fs none = none
  open_walked tmpl fs (some (rc, db)) = at_close rc (some db) (some tmpl) (some fs)

  unfoldable pub open_archive : List ℕ → cj.Item → TemplateFs → vol.Db → Option (Stage cj vol)
  open_archive root tmpl fs db = elim (disk.archive_dir root) [
    | none ↦ at_close (negsuc 5) (some db) (some tmpl) (some fs)
    | some ents ↦
        open_walked tmpl fs
          (open_devices cj fl vol (s.database fs) disk now tmpl root ents (pos 0) db)
  ]

  unfoldable pub open_filled :
      List ℕ → cj.Item → FsHeader → FilledTables → vol.Db → Option (Stage cj vol)
  open_filled root tmpl h none db = none
  open_filled root tmpl h (some (t, mem)) db =
      let fs : TemplateFs = record { header = h; tables = t; memory = mem } in
      open_archive root tmpl fs db

  unfoldable pub open_tables :
      List ℕ → cj.Item → FsHeader → Tables → ℤ × vol.Db → Option (Stage cj vol)
  open_tables root tmpl h t (rc, db) =
      let filled = fill_files cj fl h (cj.children tmpl) t (replicate (s.get_fsalloc h) 0) in
      if is_zero rc
      then (if s.memory_left
          then open_filled root tmpl h filled db
          else at_close (negsuc 4) (some db) (some tmpl) none)
      else at_close (s.init_errcode rc) (some db) (some tmpl) none

  unfoldable pub open_built : List ℕ → cj.Item → Template → Option (Stage cj vol)
  open_built root tmpl (refused rc) = at_close rc none (some tmpl) none
  open_built root tmpl (built h t) = open_tables root tmpl h t s.init

  unfoldable pub open_template : List ℕ → Option cj.Item → Option (Stage cj vol)
  open_template root none = at_close (negsuc 1) none none none
  open_template root (some tmpl) =
      open_built root tmpl (build_template cj s.fsheader_size s.header_size now (some tmpl))

  unfoldable open_read : List ℕ → Option (ℤ × Option cj.Item) → Option (Stage cj vol)
  open_read root none = at_close (negsuc 0) none none none
  open_read root (some (rc, tmpl)) =
      if is_zero rc then open_template root tmpl else at_close (rc -ℤ pos 256) none tmpl none

  unfoldable open_copied : Option cj.Item → Copied cj.Item
  open_copied none = no_size
  open_copied (some tmpl) = s.copy_template tmpl

  abbrev Ext : Type 0
  Ext = Attached vol.Db cj.Item TemplateFs

  unfoldable open_end :
      Bool → ℕ → List ℕ → Option (Stage cj vol) → Ext → Option ((ℤ × List ℕ) × Ext)
  open_end json dstmax mem none ext = none
  open_end json dstmax mem (some st) ext =
      let (rc, ext1) =
        finish_open s.deinit s.deinit_errcode st.db st.tmpl_fs st.rc (open_copied st.tmpl) ext in
      let (mem1, n) = jsonout_err mem dstmax json rc (codes "open") in some ((n, mem1), ext1)

  -- cmd_open
  unfoldable cmd_open :
      (List ℕ → List ℕ → ℤ → List ℕ × ℤ) → Parsed → List ℕ → ℕ → Ext → Option ((ℤ × List ℕ) × Ext)
  cmd_open bintex_ss p mem dstmax ext =
      let (rc, a) = extract_args bintex_ss p (arglist open_fields) in
      let root = take 200 a.archive_path in
      open_end a.jsonout_flag dstmax mem
        (if is_zero rc
          then open_read root (s.template_dir (root ++ codes "/_TMPL"))
          else at_close rc none none none)
        ext
