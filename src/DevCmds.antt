-- ===== src/DevCmds.antt =====
-- Commands on devices: cmd_devnew, cmd_devdel and cmd_devset of main/cmd_devcmds.c.
use otdb.Base.{ℕ, ◌+◌, List, Bool, false, Option, none, some, ◌==◌, if◌then◌else◌}
use otdb.Base.Int.{ℤ, pos, negsuc}
use otdb.Base.Bytes.{bytes_eq}
use otdb.Text.{codes}
use otdb.Args.{Arglist, arglist, Parsed, argfield_jsonout, argfield_deviceid, argfield_archive}
use otdb.Args.Extract.{extract_args}
use otdb.Otfs.{Otfs, OtfsCall, call_setfs, call_new, call_del}
use otdb.Files.{is_zero, on_success, with_selected, select, Reply, reply_err}

abbrev pub devset_fields : ℕ
devset_fields = argfield_jsonout + argfield_deviceid

abbrev pub devnew_fields : ℕ
devnew_fields = argfield_deviceid + argfield_jsonout + argfield_archive

-- What stat finds at a path.
pub data PathKind : Type 0 where
  missing directory not_directory : PathKind

-- What cmd_devnew is given: the template's bytes, or `none` where it is NULL; whether talloc_size
-- succeeds; what a path is; and the loading of an archive, cmdsub_datafile.
pub record Setup (fs : Otfs) : Type 0 where
  pub tmpl_fs : Option (List ℕ)
  pub memory_left : Bool
  pub stat : List ℕ → PathKind
  pub datafile : List ℕ → ℕ → fs.Db → ℤ × fs.Db

module _ (fs : Otfs) where
  -- `if (rc != 0) rc = ERRCODE(otfs, call, rc)`
  unfoldable pub checked : OtfsCall → ℤ × fs.Db → ℤ × fs.Db
  checked call (rc, db) = (if is_zero rc then rc else fs.errcode call rc, db)

  unfoldable pub new_from_template : Bool → List ℕ → ℕ → fs.Db → ℤ × fs.Db
  new_from_template memory_left base devid db =
      if memory_left then checked call_new (fs.new_fs devid base db) else (negsuc 1, db)

  unfoldable pub new_from_archive :
      PathKind → (List ℕ → ℕ → fs.Db → ℤ × fs.Db) → List ℕ → ℕ → fs.Db → ℤ × fs.Db
  new_from_archive missing datafile path devid db = (negsuc 2, db)
  new_from_archive not_directory datafile path devid db = (negsuc 3, db)
  new_from_archive directory datafile path devid db = datafile path devid db

  unfoldable pub create : Setup fs → List ℕ → Arglist → fs.Db → ℤ × fs.Db
  create s base a db =
      if bytes_eq a.archive_path (codes "NULL")
      then new_from_template s.memory_left base a.devid db
      else new_from_archive (s.stat a.archive_path) s.datafile a.archive_path a.devid db

  -- The device must not be there already.
  unfoldable pub create_absent : Setup fs → List ℕ → Arglist → fs.Db → ℤ × fs.Db
  create_absent s base a db =
      let (rc, db1) = fs.setfs a.devid db in
      if a.devid == 0
      then create s base a db
      else (if is_zero rc then (fs.errcode call_setfs rc, db1) else create s base a db1)

  unfoldable pub delete_device : Arglist → fs.Db → ℤ × fs.Db
  delete_device a db =
      let (rc, db1) = fs.setfs a.devid db in
      if a.devid == 0
      then (pos 0, db)
      else (if is_zero rc
          then checked call_del (fs.del_fs a.devid db1)
          else (fs.errcode call_setfs rc, db1))

module _ (bintex_ss : List ℕ → List ℕ → ℤ → List ℕ × ℤ) (fs : Otfs) where
  unfoldable pub devnew_open : Setup fs → Option (List ℕ) → Parsed → List ℕ → ℕ → fs.Db → Reply fs
  devnew_open s none p mem dstmax db =
      reply_err fs mem dstmax false (codes "dev-new") none (negsuc 0, db)
  devnew_open s (some base) p mem dstmax db =
      let (rc, a) = extract_args bintex_ss p (arglist devnew_fields) in
      reply_err fs mem dstmax a.jsonout_flag (codes "dev-new") none
        (on_success (rc, db) (create_absent fs s base a))

  unfoldable pub cmd_devnew : Setup fs → Parsed → List ℕ → ℕ → fs.Db → Reply fs
  cmd_devnew s p mem dstmax db = devnew_open s s.tmpl_fs p mem dstmax db

  unfoldable pub cmd_devdel : Parsed → List ℕ → ℕ → fs.Db → Reply fs
  cmd_devdel p mem dstmax db =
      let (rc, a) = extract_args bintex_ss p (arglist devset_fields) in
      reply_err fs mem dstmax a.jsonout_flag (codes "dev-del") none
        (on_success (rc, db) (delete_device fs a))

  unfoldable pub cmd_devset : Parsed → List ℕ → ℕ → fs.Db → Reply fs
  cmd_devset p mem dstmax db =
      let (rc, a) = extract_args bintex_ss p (arglist devset_fields) in
      reply_err fs mem dstmax a.jsonout_flag (codes "dev-set") none
        (on_success (rc, db) (λ d. with_selected (select fs a.devid d) (λ d1. (pos 0, d1))))
