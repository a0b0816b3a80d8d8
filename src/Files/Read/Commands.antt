-- ===== src/Files/Read/Commands.antt =====
-- The commands cmd_read, cmd_readall, cmd_readhdr and cmd_readperms of main/cmd_filecmds.c.
use otdb.Base.{
  ℕ, ◌+◌, ◌/◌, ◌%◌, List, [], ◌∷◌, ◌++◌, Bool, Option, none, some, if◌then◌else◌, ltb, take,
}
use otdb.Base.Int.{ℤ, pos, negsuc, ◌+ℤ◌}
use otdb.Text.{codes, show_dec}
use otdb.Output.{put_at, jsonout_fmt}
use otdb.Args.{Arglist, arglist, Parsed}
use otdb.Args.Extract.{extract_args}
use otdb.Otfs.{Otfs, File, Header}
use otdb.Files.{is_zero, Reply, reply_err}
use otdb.Files.Read.{
  read_fields, readall_fields, readhdr_fields, Progress, failed, take_data, opened_span, read_span,
  ident_text, header_text, read_reply, copy_data, find_after, read_found, Located, located, missed,
}

module _ (fs : Otfs) where
  -- The data behind the header, where the file opens.
  unfoldable pub readall_data : Arglist → ℕ → List ℕ → Option File → fs.Db → Progress fs
  readall_data a dstmax mem none db = record (failed fs (pos 0) mem none db) {
    rc = pos fs.header_size;
  }
  readall_data a dstmax mem (some f) db =
      let p = take_data fs a (read_span dstmax a.range_lo a.range_hi f.length) mem none f db in
      record p { rc = pos fs.header_size +ℤ p.rc }

  unfoldable pub readall_header :
      Arglist → ℕ → List ℕ → ℕ → fs.Db → Option Header → Option (Reply fs)
  readall_header a dstmax mem header db none =
      some (reply_err fs mem dstmax a.jsonout_flag (codes "r*") none (negsuc 766, db))
  readall_header a dstmax mem header db (some h) =
      let (file, db1) = fs.open_file header db in
      let p = readall_data a dstmax mem file db1 in
      let span = opened_span fs dstmax a file in
      let copied = copy_data a.jsonout_flag 0 fs.header_size (some h.bytes) mem in
      read_reply fs (codes "r*") (ident_text fs (codes "r*") a ++ header_text h) a dstmax span
        (copy_data a.jsonout_flag fs.header_size span p.found copied) p

  unfoldable pub readall_found : Arglist → ℕ → List ℕ → Located fs.Db → Option (Reply fs)
  readall_found a dstmax mem (missed rc db) =
      some (reply_err fs mem dstmax a.jsonout_flag (codes "r*") none (rc, db))
  readall_found a dstmax mem (located header db) =
      readall_header a dstmax mem header db (fs.worm_get header db)

  -- The reply of cmd_readhdr and cmd_readperms to a success.
  unfoldable pub reply_fmt : List ℕ → ℕ → Bool → ℤ → List ℕ → fs.Db → Reply fs
  reply_fmt mem dstmax json rc text db =
      let (c, ret) = jsonout_fmt (record { mem = mem; at = 0; room = dstmax }) json rc text in
      record { rc = ret; mem = c.mem; db = db; sent = none }

  unfoldable pub readhdr_header : Arglist → ℕ → List ℕ → fs.Db → Option Header → Reply fs
  readhdr_header a dstmax mem db none =
      reply_err fs mem dstmax a.jsonout_flag (codes "rh") none (negsuc 766, db)
  readhdr_header a dstmax mem db (some h) =
      reply_fmt (put_at 0 (take fs.header_size h.bytes) mem) dstmax a.jsonout_flag
        (pos fs.header_size) (ident_text fs (codes "rh") a ++ (header_text h ++ codes "}")) db

  unfoldable pub readhdr_found : Arglist → ℕ → List ℕ → Located fs.Db → Reply fs
  readhdr_found a dstmax mem (missed rc db) =
      reply_err fs mem dstmax a.jsonout_flag (codes "rh") none (rc, db)
  readhdr_found a dstmax mem (located header db) =
      readhdr_header a dstmax mem db (fs.worm_get header db)

  -- The reply to an error carries the name of cmd_readhdr.
  unfoldable pub readperms_found : Arglist → ℕ → List ℕ → Located fs.Db → Reply fs
  readperms_found a dstmax mem (missed rc db) =
      reply_err fs mem dstmax a.jsonout_flag (codes "rh") none (rc, db)
  readperms_found a dstmax mem (located header db) =
      let perms = fs.worm_read (header + 4) db / 256 % 256 in
      reply_fmt (put_at 0 (perms ∷ []) mem) dstmax a.jsonout_flag (pos 1)
        (ident_text fs (codes "rp") a ++ (codes ", \"mod\":" ++ (show_dec perms ++ codes "}"))) db

module _ (bintex_ss : List ℕ → List ℕ → ℤ → List ℕ × ℤ) (fs : Otfs) where
  -- `none` where the reply reads through the null pointer.
  unfoldable pub cmd_read :
      Option (List ℕ → List ℕ → ℤ × List ℕ) → ℕ → Parsed → List ℕ → ℕ → fs.Db → Option (Reply fs)
  cmd_read devmgr now_ms p mem dstmax db =
      let (rc, a) = extract_args bintex_ss p (arglist read_fields) in
      read_found fs devmgr now_ms a dstmax mem (find_after fs rc a db)

  unfoldable pub cmd_readall : Parsed → List ℕ → ℕ → fs.Db → Option (Reply fs)
  cmd_readall p mem dstmax db =
      let (rc, a) = extract_args bintex_ss p (arglist readall_fields) in
      readall_found fs a dstmax mem (find_after fs rc a db)

  unfoldable pub cmd_readhdr : Parsed → List ℕ → ℕ → fs.Db → Reply fs
  cmd_readhdr p mem dstmax db =
      let (rc, a) = extract_args bintex_ss p (arglist readhdr_fields) in
      let start =
        if is_zero rc then (if ltb dstmax fs.header_size then negsuc 4 else pos 0) else rc in
      readhdr_found fs a dstmax mem (find_after fs start a db)

  unfoldable pub cmd_readperms : Parsed → List ℕ → ℕ → fs.Db → Reply fs
  cmd_readperms p mem dstmax db =
      let (rc, a) = extract_args bintex_ss p (arglist readall_fields) in
      readperms_found fs a dstmax mem (find_after fs rc a db)
