-- ===== src/OpenLoad/DataFile/Merge.antt =====
-- The objects of the data files, one after the other, in cmdsub_datafile of main/cmd_open_load.c. `none`
-- is an access outside the memory of the filesystem.
use otdb.Base.{ℕ, ◌%◌, List, [], ◌∷◌, Option, none, some, min, if◌then◌else◌}
use otdb.Base.Int.{ℤ, pos, negsuc}
use otdb.Text.{codes}
use otdb.DevLink.{bytes_le}
use otdb.Otfs.{File}
use otdb.Cjson.{Cjson, Floats}
use otdb.Files.{is_zero}
use otdb.OpenLoad.Contents.{put_in, Filled}
use otdb.OpenLoad.DataFile.{Volume, FileMeta, object_of, data_meta, is_same_file, merge_content}

module _ (vol : Volume) where
  -- The bytes put to the start of a file's data, and the file closed.
  unfoldable pub put_start : List ℕ → File → Option ℕ → vol.Db → Option vol.Db
  put_start bytes fp none db = some (vol.close fp db)
  put_start bytes fp (some at) db = elim (put_in at bytes (vol.memory db)) [
    | none ↦ none
    | some m ↦ some (vol.close fp (vol.with_memory m db))
  ]

  unfoldable pub put_opened : List ℕ → Option File × vol.Db → Option vol.Db
  put_opened bytes (none, db) = some db
  put_opened bytes (some fp, db) = put_start bytes fp (vol.memptr fp db) db

  -- The lower half of the device's identifier goes to file 0, and all of it to file 1.
  unfoldable pub write_ids : ℕ → vol.Db → Option vol.Db
  write_ids uid db = elim (put_opened (bytes_le 2 (uid % 65536)) (vol.open_su 0 db)) [
    | none ↦ none
    | some db1 ↦ put_opened (bytes_le 8 uid) (vol.open_su 1 db1)
  ]

module _ (cj : Cjson) (fl : Floats) (vol : Volume) where
  unfoldable pub close_filled : FileMeta → File → Filled → vol.Db → Option vol.Db
  close_filled dmeta fp none db = none
  close_filled dmeta fp (some (mem, len)) db =
      let fp1 : File = record fp { length = len } in
      some (vol.close fp1 (vol.setmodtime fp1 dmeta.modtime (vol.with_memory mem db)))

  unfoldable pub merge_file :
      FileMeta → File → Option ℕ → cj.Item → cj.Item → vol.Db → Option vol.Db
  merge_file dmeta fp none content tmpl db = some (vol.close fp db)
  merge_file dmeta fp (some at) content tmpl db =
      let filled =
        merge_content cj fl dmeta.ctype at (min fp.alloc dmeta.size) fp content tmpl
          (vol.memory db) in
      close_filled dmeta fp filled db

  unfoldable pub merge_opened : FileMeta → cj.Item → cj.Item → Option File × vol.Db → Option vol.Db
  merge_opened dmeta content tmpl (none, db) = some db
  merge_opened dmeta content tmpl (some fp, db) =
      merge_file dmeta fp (vol.memptr fp db) content tmpl db

  -- From the template's "_content" on.
  unfoldable pub merge_checked : FileMeta → cj.Item → Option cj.Item → vol.Db → Option vol.Db
  merge_checked dmeta content none db = some db
  merge_checked dmeta content (some tmpl) db =
      merge_opened dmeta content tmpl (vol.open_rw dmeta.block dmeta.fileid db)

  -- The two arguments of the template's file are its "_meta" and "_content".
  unfoldable pub merge_matched :
      FileMeta → cj.Item → Option cj.Item → Option cj.Item → vol.Db → Option vol.Db
  merge_matched dmeta content none tmpl db = some db
  merge_matched dmeta content (some meta) tmpl db =
      if is_same_file cj fl dmeta meta then merge_checked dmeta content tmpl db else some db

  unfoldable pub merge_template : FileMeta → cj.Item → Option cj.Item → vol.Db → Option vol.Db
  merge_template dmeta content none db = some db
  merge_template dmeta content (some fileobj) db =
      merge_matched dmeta content (object_of cj fl (cj.get_item fileobj (codes "_meta")))
        (object_of cj fl (cj.get_item fileobj (codes "_content"))) db

  unfoldable pub merge_meta :
      ℕ → Option cj.Item → Option cj.Item → Option cj.Item → vol.Db → Option vol.Db
  merge_meta now fileobj (some meta) (some content) db =
      merge_template (data_meta cj fl now meta) content fileobj db
  merge_meta now fileobj (some meta) none db = some db
  merge_meta now fileobj none content db = some db

  -- One round of the loop: an object that is not complete, or not that of the template, is passed over.
  unfoldable pub merge_object : ℕ → cj.Item → cj.Item → vol.Db → Option vol.Db
  merge_object now fstmpl dataobj db =
      merge_meta now (object_of cj fl (cj.get_item fstmpl (cj.name dataobj)))
        (object_of cj fl (cj.get_item dataobj (codes "_meta")))
        (object_of cj fl (cj.get_item dataobj (codes "_content"))) db

  unfoldable pub merge_objects : ℕ → cj.Item → List cj.Item → vol.Db → Option vol.Db
  merge_objects now fstmpl [] db = some db
  merge_objects now fstmpl (dataobj ∷ dataobjs) db = elim (merge_object now fstmpl dataobj db) [
    | none ↦ none
    | some db1 ↦ merge_objects now fstmpl dataobjs db1
  ]

  unfoldable pub merge_data : ℕ → cj.Item → Option cj.Item → vol.Db → Option vol.Db
  merge_data now fstmpl none db = some db
  merge_data now fstmpl (some found) db = merge_objects now fstmpl (cj.children found) db

  unfoldable pub with_rc : ℤ → Option vol.Db → Option (ℤ × vol.Db)
  with_rc rc none = none
  with_rc rc (some db) = some (rc, db)

  -- cmdsub_datafile. `found` is what the loop over the directory has read, and `rc` what it got from
  -- jst_aggregate_json last.
  unfoldable pub cmdsub_datafile :
      ℕ → cj.Item → ℕ → ℤ → Option cj.Item → vol.Db → Option (ℤ × vol.Db)
  cmdsub_datafile now fstmpl uid rc found db =
      if is_zero rc
      then with_rc (pos 0)
          (elim (write_ids vol uid db) [ none ↦ none | some db1 ↦ merge_data now fstmpl found db1 ])
      else some (negsuc 8, db)
