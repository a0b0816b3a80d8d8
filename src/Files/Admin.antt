-- ===== src/Files/Admin.antt =====
-- Commands on whole files: cmd_del, cmd_new, cmd_restore, cmd_writeperms.
use otdb.Base.{ℕ, ◌+◌, List, Bool, false, none, if◌then◌else◌}
use otdb.Base.Int.{ℤ, negsuc}
use otdb.Text.{codes}
use otdb.Args.{
  arglist, Parsed, argfield_jsonout, argfield_deviceidopt, argfield_blockid, argfield_fileid,
  argfield_fileperms, argfield_filealloc,
}
use otdb.Args.Extract.{extract_args}
use otdb.Otfs.{Otfs}
use otdb.Files.{on_success, with_selected, fs_result, select, Reply, reply_err}

abbrev pub del_fields : ℕ
del_fields = argfield_jsonout + argfield_deviceidopt + argfield_blockid + argfield_fileid

abbrev pub new_fields : ℕ
new_fields = del_fields + argfield_fileperms + argfield_filealloc

abbrev pub writeperms_fields : ℕ
writeperms_fields = del_fields + argfield_fileperms

module _ (bintex_ss : List ℕ → List ℕ → ℤ → List ℕ × ℤ) (fs : Otfs) where
  unfoldable pub cmd_del : Parsed → List ℕ → ℕ → fs.Db → Reply fs
  cmd_del p mem dstmax db =
      let (rc, a) = extract_args bintex_ss p (arglist del_fields) in
      reply_err fs mem dstmax a.jsonout_flag (codes "del") none (
        on_success (rc, db)
          (λ d.
            with_selected (select fs a.devid d)
              (λ d1. fs_result (fs.delete a.block_id a.file_id d1))))

  unfoldable pub cmd_new : Parsed → List ℕ → ℕ → fs.Db → Reply fs
  cmd_new p mem dstmax db =
      let (rc, a) = extract_args bintex_ss p (arglist new_fields) in
      reply_err fs mem dstmax a.jsonout_flag (codes "new") none (
        on_success (rc, db)
          (λ d.
            with_selected (select fs a.devid d)
              (λ d1. fs_result (fs.new a.block_id a.file_id a.file_perms a.file_alloc d1))))

  unfoldable pub cmd_restore : Parsed → List ℕ → ℕ → fs.Db → Reply fs
  cmd_restore p mem dstmax db =
      let (rc, a) = extract_args bintex_ss p (arglist del_fields) in
      reply_err fs mem dstmax a.jsonout_flag (codes "z") none
        (on_success (rc, db) (λ d. with_selected (select fs a.devid d) (λ d1. (negsuc 0, d1))))

  -- `db_open` is `dth->ext->db != NULL`.
  unfoldable pub cmd_writeperms : Bool → Parsed → List ℕ → ℕ → fs.Db → Reply fs
  cmd_writeperms db_open p mem dstmax db =
      if db_open
      then (let (rc, a) = extract_args bintex_ss p (arglist writeperms_fields) in
          reply_err fs mem dstmax a.jsonout_flag (codes "wp") none (
            on_success (rc, db)
              (λ d.
                with_selected (select fs a.devid d)
                  (λ d1. fs_result (fs.chmod a.block_id a.file_id a.file_perms d1)))))
      else reply_err fs mem dstmax false (codes "wp") none (negsuc 0, db)
