-- ===== src/Files/Read/Span.antt =====
-- How much cmd_read and cmd_readall of main/cmd_filecmds.c return, and of what.
use otdb.Base.{
  if◌then◌else◌, leb, ℕ, ◌+◌, ◌-◌, ◌≡◌, refl, List, true, false, Option, none, some, leb, min, take,
  drop, arith, get_or, ◌⊎◌, inl, inr, ◌*◌, ◌/◌, ◌%◌, ◌++◌,
}
use otdb.Base.Int.{ℤ, pos, ◌-ℤ◌, ltb_ℤ}
use otdb.Output.{put_at}
use otdb.Text.{codes, show_dec}
use otdb.Base.Branch.{if-both}
use otdb.Hex.{hexnread_mem}
use otdb.DevLink.{minauth_get, dm_xnprintf}
use otdb.Args.{Arglist}
use otdb.Otfs.{Otfs, File, access_w}
use otdb.Files.{is_zero}
use otdb.Files.Read.{
  located, read_span, Progress, take_data, read_open, read_file, opened_span, read_reply, copy_data,
  read_found, from_lo, span_or_zero, store_answer, on_answer, refresh,
}

-- A range gives what the file has of it, up to `dstmax` bytes; but a range that ends before it starts
-- gives the rest of the file from its start on, up to `dstmax` bytes.
pub read_span-exact :
    (dstmax lo hi len : ℕ)
    → read_span dstmax lo hi len
      ≡ (if leb lo hi then min (min (hi - lo) dstmax) (len - lo) else min dstmax (len - lo))
unfolding read_span
read_span-exact dstmax lo hi len = ground arith

not_negative : (n : ℕ) → ltb_ℤ (pos n) (pos 0) ≡ false
not_negative n = ground arith

-- In soft mode, with or without a device manager, with a file that opens and has its memory: cmd_read
-- without JSON returns the span, puts the file's bytes from `range_lo` on at `dst`, as many as the
-- span, sends nothing, and closes the file.
pub read_found-local :
    (fs : Otfs) (devmgr : Option (List ℕ → List ℕ → ℤ × List ℕ)) (now_ms : ℕ) (a : Arglist)
    (dstmax : ℕ) (mem : List ℕ) (header : ℕ) (f : File) (memory : List ℕ) (db db1 : fs.Db)
    → a.soft_flag ≡ true
    → a.jsonout_flag ≡ false
    → fs.open_file header db ≡ (some f, db1)
    → fs.memptr f db1 ≡ some memory
    → read_found fs devmgr now_ms a dstmax mem (located header db)
      ≡ some (record {
        rc = pos (read_span dstmax a.range_lo a.range_hi f.length);
        mem =
            put_at 0
              (take (read_span dstmax a.range_lo a.range_hi f.length) (drop a.range_lo memory))
              mem;
        db = fs.close f db1;
        sent = none;
      })
unfolding read_found read_file read_open take_data opened_span read_reply copy_data from_lo
    span_or_zero
read_found-local fs none now_ms a dstmax mem header f memory db db1 soft json opens points =
    rw (opens, points, json, not_negative (read_span dstmax a.range_lo a.range_hi f.length)) refl
read_found-local fs (some devmgr) now_ms a dstmax mem header f memory db db1 soft json opens
      points =
    rw (opens, points, soft, json, not_negative (read_span dstmax a.range_lo a.range_hi f.length))
      refl

-- A negative number, or the span that was taken, or 0 where there is no data.
abbrev pub Counts : ℕ → ℤ → Type 0
Counts span rc = (ltb_ℤ rc (pos 0) ≡ true) ⊎ ((rc ≡ pos span) ⊎ (rc ≡ pos 0))

span_or_zero-Counts : (span : ℕ) (o : Option (List ℕ)) → Counts span (span_or_zero span o)
unfolding span_or_zero
span_or_zero-Counts span none = inr (inr refl)
span_or_zero-Counts span (some memory) = inr (inl refl)

take_data-Counts :
    (fs : Otfs) (a : Arglist) (span : ℕ) (mem : List ℕ) (sent : Option (List ℕ)) (f : File)
    (db : fs.Db)
    → Counts span (take_data fs a span mem sent f db).rc
unfolding take_data
take_data-Counts fs a span mem sent f db = span_or_zero-Counts span (fs.memptr f db)

module _ (fs : Otfs) (a : Arglist) (span : ℕ) where
  abbrev Ok : Progress fs → Type 0
  Ok p = Counts span p.rc

  store_answer-Counts :
      (r : List ℕ × ℕ) (sent : List ℕ) (f : File) (db : fs.Db)
      → Ok (store_answer fs a span r sent f db)
  unfolding store_answer
  store_answer-Counts (mem, n) sent f db =
      let stored = fs.store f (take (get_or mem 7 0 * 256 + get_or mem 8 0) (drop 9 mem)) db in
      if-both Ok (leb n 9) _ _ (λ _. inl refl)
        (λ _.
          if-both Ok (is_zero stored.0) _ _
            (λ _. take_data-Counts fs a span mem (some sent) stored.1.0 stored.1.1) (λ _. inl refl))

  on_answer-Counts :
      (dstmax : ℕ) (r : ℤ × List ℕ) (sent : List ℕ) (f : File) (db : fs.Db)
      → Ok (on_answer fs a dstmax span r sent f db)
  unfolding on_answer
  on_answer-Counts dstmax (cmdbytes, mem) sent f db =
      if-both Ok (ltb_ℤ cmdbytes (pos 0)) _ _ (λ e. inl e)
        (λ _. store_answer-Counts (hexnread_mem mem 0 0 dstmax) sent f db)

-- Whatever the device answers and the file holds after that, cmd_read's count is a negative error, 0 where
-- there is no data, or the span of the file as it was before the device was asked.
read_open-Counts :
    (fs : Otfs) (devmgr : Option (List ℕ → List ℕ → ℤ × List ℕ)) (now_ms : ℕ) (a : Arglist)
    (dstmax : ℕ) (mem : List ℕ) (f : File) (db : fs.Db)
    → Counts
        (read_span dstmax a.range_lo a.range_hi f.length)
        (read_open fs devmgr now_ms a dstmax mem f db).rc
unfolding read_open refresh
read_open-Counts fs none now_ms a dstmax mem f db =
    take_data-Counts fs a (read_span dstmax a.range_lo a.range_hi f.length) mem none f db
read_open-Counts fs (some devmgr) now_ms a dstmax mem f db =
    let span = read_span dstmax a.range_lo a.range_hi f.length in
    let P = Ok fs a span in
    if-both P a.soft_flag _ _ (λ _. take_data-Counts fs a span mem none f db)
      (λ _.
        if-both P (ltb_ℤ a.age_ms (pos now_ms -ℤ pos (fs.getmodtime f db * 1000))) _ _
          (λ _.
            on_answer-Counts fs a span dstmax
              (dm_xnprintf devmgr mem dstmax
                (minauth_get (f.idmod / 256 % 256) (fs.access_mask access_w)) (fs.activeuid db)
                (codes "file r " ++ show_dec a.file_id))
              (codes "file r " ++ show_dec a.file_id) f db)
          (λ _. take_data-Counts fs a span mem none f db))
