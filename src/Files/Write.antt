-- ===== src/Files/Write.antt =====
-- Commands that write file data: cmd_write and cmd_pub.
pub mod Exact
pub mod Inside
pub mod Errors
mod Tests
use otdb.Base.{
  ℕ, zero, suc, ◌+◌, ◌-◌, ◌*◌, ◌/◌, ◌%◌, List, [], ◌∷◌, ◌++◌, Bool, true, false, Option, none, some,
  ◌==◌, if◌then◌else◌, ◌&&◌, not, min, ltb, leb, take, length,
}
use otdb.Base.Int.{ℤ, pos, negsuc, ◌+ℤ◌, ◌-ℤ◌, pos_part, neg_part, ltb_ℤ, sub_ℕ}
use otdb.Base.Splice.{splice}
use otdb.Text.{codes, show_dec}
use otdb.Hex.{hexwrite}
use otdb.Args.{
  Arglist, arglist, Parsed, argfield_jsonout, argfield_softmode, argfield_deviceidopt,
  argfield_blockid, argfield_fileid, argfield_filerange, argfield_filedata,
}
use otdb.Args.Extract.{extract_args}
use otdb.DevList.{size_of}
use otdb.JsonTools.Elements.{c_text}
use otdb.DevLink.{minauth_get, dm_xnprintf}
use otdb.Otfs.{Otfs, File, access_w}
use otdb.Files.{is_zero, Selected, selected, unselected, select, Reply, reply_err}

abbrev pub pub_fields : ℕ
pub_fields =
    argfield_jsonout + argfield_deviceidopt + argfield_blockid + argfield_filerange
    + argfield_fileid + argfield_filedata

abbrev pub write_fields : ℕ
write_fields = pub_fields + argfield_softmode

-- `arglist` before the extraction: the data goes to `dst`.
abbrev pub write_arglist : ℕ → List ℕ → ℕ → Arglist
write_arglist fields dst dstmax = record (arglist fields) {
  filedata = some dst;
  filedata_size = pos dstmax;
}

abbrev pub data_of : Option (List ℕ) → List ℕ
data_of none = []
data_of (some bytes) = bytes

-- `span`: the data's size, or what the range holds.
unfoldable pub clip : ℤ → ℕ → ℕ → ℤ
clip size lo hi = if ltb_ℤ (sub_ℕ hi lo) size then sub_ℕ hi lo else size

unfoldable pub grown : ℕ → ℤ → ℕ → ℕ
grown len span lo = if ltb_ℤ (pos len) (span +ℤ pos lo) then pos_part (span +ℤ pos lo) else len

-- The memcpy, where `span > 0`.
unfoldable pub copied : ℕ → ℤ → List ℕ → List ℕ → List ℕ
copied lo span bytes memory =
    if ltb_ℤ (pos 0) span then splice lo (take (pos_part span) bytes) memory else memory

-- cmd_hexwrite of `n` bytes into `char hexbuf[513]`: `none` where it reads behind the data or writes
-- behind the buffer.
unfoldable pub hexbuf_of : List ℕ → ℕ → Option (List ℕ)
hexbuf_of bytes n =
    let out = (hexwrite (take n bytes)).0 in
    if leb n (length bytes) && leb (length out) 513 then some out else none

module _ (fs : Otfs) where
  -- An error and the filesystem after it, or the open file with its data written.
  pub data Attempt : Type 0 where
    refused : ℤ → fs.Db → Attempt
    wrote : File → ℤ → ℕ → fs.Db → Attempt

  unfoldable pub write_memory : Arglist → File → Option (List ℕ) → fs.Db → Attempt
  write_memory a f none db = refused (negsuc 766) (fs.close f db)
  write_memory a f (some memory) db =
      if leb f.alloc a.range_lo
      then refused (negsuc 518) (fs.close f db)
      else (let hi = min a.range_hi f.alloc in
          let span = clip a.filedata_size a.range_lo hi in
          let f1 = record f { length = grown f.length span a.range_lo } in
          wrote f1 span hi (fs.poke f1 (copied a.range_lo span (data_of a.filedata) memory) db))

  unfoldable pub write_file : Arglist → Option File × fs.Db → Attempt
  write_file a (none, db) = refused (negsuc 766) db
  write_file a (some f, db) = write_memory a f (fs.memptr f db) db

  -- From vl_getheader_vaddr to the memcpy, the same in both commands.
  unfoldable pub write_range : Arglist → fs.Db → Attempt
  write_range a db =
      let (rc, header) = fs.getheader a.block_id a.file_id access_w db in
      if is_zero rc then write_file a (fs.open_file header db) else refused (pos 512 -ℤ rc) db

  unfoldable pub write_selected : Arglist → Selected fs.Db → Attempt
  write_selected a (selected db) = write_range a db
  write_selected a (unselected rc db) = refused rc db

  unfoldable pub attempt : ℤ → Arglist → fs.Db → Attempt
  attempt rc a db = if is_zero rc then write_selected a (select fs a.devid db) else refused rc db

  unfoldable pub pub_finish : Arglist → ℕ → Attempt → Reply fs
  pub_finish a dstmax (refused rc db) =
      reply_err fs (data_of a.filedata) dstmax a.jsonout_flag (codes "pub") none (rc, db)
  pub_finish a dstmax (wrote f span hi db) =
      reply_err fs (data_of a.filedata) dstmax a.jsonout_flag (codes "pub") none
        (pos 0, fs.close f db)

  -- "file w %u -r %u:%u [%s]"
  unfoldable pub write_text : Arglist → ℕ → List ℕ → List ℕ
  write_text a hi hexbuf =
      codes "file w "
      ++ (show_dec a.file_id
          ++ (codes " -r "
              ++ (show_dec a.range_lo
                  ++ (codes ":" ++ (show_dec hi ++ (codes " [" ++ (c_text hexbuf ++ codes "]")))))))

  -- dm_xnprintf of the line, where the digits are in `hexbuf`.
  unfoldable pub sync_line :
      Arglist
      → ℕ
      → File
      → ℕ
      → fs.Db
      → (List ℕ → List ℕ → ℤ × List ℕ)
      → Option (List ℕ)
      → Option (List ℕ × Option (List ℕ))
  sync_line a dstmax f hi db devmgr none = none
  sync_line a dstmax f hi db devmgr (some hexbuf) =
      let text = write_text a hi hexbuf in
      let auth = minauth_get (f.idmod / 256 % 256) (fs.access_mask access_w) in
      some
        ((dm_xnprintf devmgr (data_of a.filedata) dstmax auth (fs.activeuid db) text).1, some text)

  -- The write to the device, where there is one and `-s` is not set: `span` goes to cmd_hexwrite as a
  -- size_t. `none` is where cmd_hexwrite leaves its buffers.
  unfoldable pub sync :
      Arglist
      → ℕ
      → File
      → ℤ
      → ℕ
      → fs.Db
      → Option (List ℕ → List ℕ → ℤ × List ℕ)
      → Option (List ℕ × Option (List ℕ))
  sync a dstmax f span hi db none = some (data_of a.filedata, none)
  sync a dstmax f span hi db (some devmgr) =
      if a.soft_flag
      then some (data_of a.filedata, none)
      else sync_line a dstmax f hi db devmgr (hexbuf_of (data_of a.filedata) (size_of span))

  unfoldable pub write_reply :
      Arglist → ℕ → ℤ × fs.Db → Option (List ℕ × Option (List ℕ)) → Option (Reply fs)
  write_reply a dstmax r none = none
  write_reply a dstmax r (some (mem, sent)) =
      some (reply_err fs mem dstmax a.jsonout_flag (codes "w") sent r)

  unfoldable pub write_finish :
      Option (List ℕ → List ℕ → ℤ × List ℕ) → Arglist → ℕ → Attempt → Option (Reply fs)
  write_finish devmgr a dstmax (refused rc db) =
      write_reply a dstmax (rc, db) (some (data_of a.filedata, none))
  write_finish devmgr a dstmax (wrote f span hi db) =
      write_reply a dstmax (pos 0, fs.close f db) (sync a dstmax f span hi db devmgr)

module _ (bintex_ss : List ℕ → List ℕ → ℤ → List ℕ × ℤ) (fs : Otfs) where
  unfoldable pub cmd_pub : Parsed → List ℕ → ℕ → fs.Db → Reply fs
  cmd_pub p dst dstmax db =
      let (rc, a) = extract_args bintex_ss p (write_arglist pub_fields dst dstmax) in
      pub_finish fs a dstmax (attempt fs rc a db)

  -- `devmgr` is `none` where `dth->ext->devmgr` is NULL.
  unfoldable pub cmd_write :
      Option (List ℕ → List ℕ → ℤ × List ℕ) → Parsed → List ℕ → ℕ → fs.Db → Option (Reply fs)
  cmd_write devmgr p dst dstmax db =
      let (rc, a) = extract_args bintex_ss p (write_arglist write_fields dst dstmax) in
      write_finish fs devmgr a dstmax (attempt fs rc a db)
