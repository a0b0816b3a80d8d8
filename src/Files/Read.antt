-- ===== src/Files/Read.antt =====
-- Commands that read: cmd_read, cmd_readall, cmd_readhdr, cmd_readperms.
pub mod Span
pub mod Commands
mod Tests
use otdb.Base.{
  ℕ, zero, suc, ◌+◌, ◌-◌, ◌*◌, ◌/◌, ◌%◌, List, [], ◌∷◌, ◌++◌, Bool, true, false, Option, none, some,
  ◌==◌, if◌then◌else◌, ◌&&◌, ltb, leb, take, drop, length, get_or,
}
use otdb.Base.Int.{ℤ, pos, negsuc, ◌+ℤ◌, ◌-ℤ◌, pos_part, neg_part, ltb_ℤ}
use otdb.Text.{codes, show_dec, show_hex}
use otdb.Hex.{hexnread_mem}
use otdb.Output.{Cursor, put_at, jsonout_err, jsonout_fmt, jsonout_data}
use otdb.Args.{
  Arglist, arglist, Parsed, argfield_jsonout, argfield_softmode, argfield_deviceidopt,
  argfield_agems, argfield_blockid, argfield_fileid, argfield_filerange,
}
use otdb.Args.Extract.{extract_args}
use otdb.DevLink.{minauth_get, dm_xnprintf}
use otdb.Otfs.{Otfs, File, Header, access_r, access_w}
use otdb.Files.{is_zero, Selected, selected, unselected, select, Reply, reply_err}

abbrev pub readhdr_fields : ℕ
readhdr_fields = argfield_jsonout + argfield_deviceidopt + argfield_blockid + argfield_fileid

abbrev pub readall_fields : ℕ
readall_fields = readhdr_fields + argfield_filerange

abbrev pub read_fields : ℕ
read_fields = readall_fields + argfield_softmode + argfield_agems

-- `span`. The comparison with `dstmax` is that of a size_t, so a range that ends before it starts is
-- more than any `dstmax`.
unfoldable pub read_span : ℕ → ℕ → ℕ → ℕ → ℕ
read_span dstmax lo hi len =
    let span = if leb lo hi && leb (hi - lo) dstmax then hi - lo else dstmax in
    if leb len lo then 0 else (if ltb (len - lo) span then len - lo else span)

unfoldable pub from_lo : ℕ → Option (List ℕ) → Option (List ℕ)
from_lo lo none = none
from_lo lo (some memory) = some (drop lo memory)

-- `rc` is the span where there is data, and stays 0 where there is none.
unfoldable pub span_or_zero : ℕ → Option (List ℕ) → ℤ
span_or_zero span none = pos 0
span_or_zero span (some memory) = pos span

abbrev pub bytes_or_none : Option (List ℕ) → List ℕ
bytes_or_none none = []
bytes_or_none (some bytes) = bytes

-- `memcpy(dst, dat_ptr, span)` behind what is at `dst` already.
unfoldable pub copy_data : Bool → ℕ → ℕ → Option (List ℕ) → List ℕ → List ℕ
copy_data true at span found mem = mem
copy_data false at span none mem = mem
copy_data false at span (some bytes) mem = put_at at (take span bytes) mem

unfoldable pub header_text : Header → List ℕ
header_text h =
    codes ", \"mod\":"
    ++ (show_dec (h.idmod / 256)
        ++ (codes ", \"alloc\":"
            ++ (show_dec h.alloc
                ++ (codes ", \"length\":"
                    ++ (show_dec h.length ++ (codes ", \"time\":" ++ show_dec h.modtime))))))

-- Past the extraction: the header's address, or the jump to the end with an error.
pub data Located (D : Type 0) : Type 0 where
  located : ℕ → D → Located D
  missed : ℤ → D → Located D

module _ (fs : Otfs) where
  -- What a read has come to: `rc`, the memory at `dst`, the filesystem, the text sent, and the bytes
  -- from `dat_ptr` on, `none` for the null pointer.
  pub record Progress : Type 0 where
    pub rc : ℤ
    pub mem : List ℕ
    pub db : fs.Db
    pub sent : Option (List ℕ)
    pub found : Option (List ℕ)

  abbrev pub failed : ℤ → List ℕ → Option (List ℕ) → fs.Db → Progress
  failed rc mem sent db = record { rc = rc; mem = mem; db = db; sent = sent; found = none }

  unfoldable pub take_data : Arglist → ℕ → List ℕ → Option (List ℕ) → File → fs.Db → Progress
  take_data a span mem sent f db =
      let memory = fs.memptr f db in
      record {
        rc = span_or_zero span memory;
        mem = mem;
        db = fs.close f db;
        sent = sent;
        found = from_lo a.range_lo memory;
      }

  -- The device's answer after its decoding in place: the file's new length is big endian at 7 and
  -- 8, its data from 9 on.
  unfoldable pub store_answer : Arglist → ℕ → List ℕ × ℕ → List ℕ → File → fs.Db → Progress
  store_answer a span (mem, n) sent f db =
      if leb n 9
      then failed (negsuc 768) mem (some sent) (fs.close f db)
      else (let frlen = get_or mem 7 0 * 256 + get_or mem 8 0 in
          let (rc, (f1, db1)) = fs.store f (take frlen (drop 9 mem)) db in
          if is_zero rc
          then take_data a span mem (some sent) f1 db1
          else failed (negsuc 1024) mem (some sent) (fs.close f1 db1))

  unfoldable pub on_answer : Arglist → ℕ → ℕ → ℤ × List ℕ → List ℕ → File → fs.Db → Progress
  on_answer a dstmax span (cmdbytes, mem) sent f db =
      if ltb_ℤ cmdbytes (pos 0)
      then failed cmdbytes mem (some sent) (fs.close f db)
      else store_answer a span (hexnread_mem mem 0 0 dstmax) sent f db

  -- "file r %u" to the device, where the file is older than the age asked for.
  unfoldable pub refresh :
      (List ℕ → List ℕ → ℤ × List ℕ) → ℕ → Arglist → ℕ → ℕ → List ℕ → File → fs.Db → Progress
  refresh devmgr now_ms a dstmax span mem f db =
      let file_age = pos now_ms -ℤ pos (fs.getmodtime f db * 1000) in
      let text = codes "file r " ++ show_dec a.file_id in
      let auth = minauth_get (f.idmod / 256 % 256) (fs.access_mask access_w) in
      if ltb_ℤ a.age_ms file_age
      then on_answer a dstmax span (dm_xnprintf devmgr mem dstmax auth (fs.activeuid db) text) text
          f db
      else take_data a span mem none f db

  -- From the open file to its closing.
  unfoldable pub read_open :
      Option (List ℕ → List ℕ → ℤ × List ℕ) → ℕ → Arglist → ℕ → List ℕ → File → fs.Db → Progress
  read_open none now_ms a dstmax mem f db =
      take_data a (read_span dstmax a.range_lo a.range_hi f.length) mem none f db
  read_open (some devmgr) now_ms a dstmax mem f db =
      let span = read_span dstmax a.range_lo a.range_hi f.length in
      if a.soft_flag
      then take_data a span mem none f db
      else refresh devmgr now_ms a dstmax span mem f db

  -- The open file's span, or 0 without one.
  unfoldable pub opened_span : ℕ → Arglist → Option File → ℕ
  opened_span dstmax a none = 0
  opened_span dstmax a (some f) = read_span dstmax a.range_lo a.range_hi f.length

  unfoldable pub read_file :
      Option (List ℕ → List ℕ → ℤ × List ℕ)
      → ℕ
      → Arglist
      → ℕ
      → List ℕ
      → Option File
      → fs.Db
      → Progress
  read_file devmgr now_ms a dstmax mem none db = failed (pos 0) mem none db
  read_file devmgr now_ms a dstmax mem (some f) db = read_open devmgr now_ms a dstmax mem f db

  -- `, "devid":"%x", "block":%i, "id":%i`, after the opening with the command's name.
  unfoldable pub ident_text : List ℕ → Arglist → List ℕ
  ident_text cmdname a =
      codes "{\"cmd\":\""
      ++ (cmdname
          ++ (codes "\", \"devid\":\""
              ++ (show_hex a.devid
                  ++ (codes "\", \"block\":"
                      ++ (show_dec (fs.block_code a.block_id)
                          ++ (codes ", \"id\":" ++ show_dec a.file_id))))))

  -- The reply in JSON, which reads `span` bytes from `dat_ptr` also where it is null: `none`.
  unfoldable pub json_data : List ℕ → Arglist → ℕ → ℕ → Progress → Option (Reply fs)
  json_data text a dstmax span p =
      let (c, rc) = jsonout_fmt (record { mem = p.mem; at = 0; room = dstmax }) true p.rc text in
      let (c1, rc1) = jsonout_data c true rc (take span (bytes_or_none p.found)) a.range_lo in
      if ltb (length (bytes_or_none p.found)) span
      then none
      else some (record { rc = rc1; mem = c1.mem; db = p.db; sent = p.sent })

  -- The end of cmd_read and cmd_readall; `copied` is the memory after the memcpy calls.
  unfoldable pub read_reply :
      List ℕ → List ℕ → Arglist → ℕ → ℕ → List ℕ → Progress → Option (Reply fs)
  read_reply cmdname text a dstmax span copied p =
      if ltb_ℤ p.rc (pos 0)
      then some (reply_err fs copied dstmax a.jsonout_flag cmdname p.sent (p.rc, p.db))
      else (if a.jsonout_flag
          then json_data text a dstmax span p
          else some (record { rc = p.rc; mem = copied; db = p.db; sent = p.sent }))

  unfoldable pub find_header : Arglist → fs.Db → Located fs.Db
  find_header a db =
      let (rc, header) = fs.getheader a.block_id a.file_id access_r db in
      if is_zero rc then located header db else missed (negsuc 511 -ℤ rc) db

  unfoldable pub find : Arglist → Selected fs.Db → Located fs.Db
  find a (selected db) = find_header a db
  find a (unselected rc db) = missed rc db

  unfoldable pub find_after : ℤ → Arglist → fs.Db → Located fs.Db
  find_after rc a db = if is_zero rc then find a (select fs a.devid db) else missed rc db

  unfoldable pub read_found :
      Option (List ℕ → List ℕ → ℤ × List ℕ)
      → ℕ
      → Arglist
      → ℕ
      → List ℕ
      → Located fs.Db
      → Option (Reply fs)
  read_found devmgr now_ms a dstmax mem (missed rc db) =
      some (reply_err fs mem dstmax a.jsonout_flag (codes "r") none (rc, db))
  read_found devmgr now_ms a dstmax mem (located header db) =
      let (file, db1) = fs.open_file header db in
      let p = read_file devmgr now_ms a dstmax mem file db1 in
      let span = opened_span dstmax a file in
      read_reply (codes "r") (ident_text (codes "r") a) a dstmax span
        (copy_data a.jsonout_flag 0 span p.found p.mem) p
