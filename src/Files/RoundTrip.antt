-- ===== src/Files/RoundTrip.antt =====
-- A read by cmd_read after a write by cmd_write or cmd_pub, of main/cmd_filecmds.c.
use otdb.Base.{
  ℕ, ◌+◌, ◌-◌, ◌<◌, ◌≤◌, ◌≡◌, ◌∙◌, refl, sym, ap, List, ◌++◌, true, false, Option, none, some, min,
  leb, if◌then◌else◌, take, drop, length, arith, length-take,
}
use otdb.Base.Int.{ℤ, pos}
use otdb.Base.Splice.{splice, drop_prefix, take_prefix}
use otdb.Output.{put_at}
use otdb.Args.{Arglist}
use otdb.Otfs.{Otfs, File, access_w}
use otdb.Files.{selected, select, Reply}
use otdb.Files.Write.{data_of, clip, wrote, attempt}
use otdb.Files.Write.Exact.{count, reach, larger, file_after, db_after, attempt-exact}
use otdb.Files.Read.{located, read_found, read_span}
use otdb.Files.Read.Span.{read_span-exact, read_found-local}

-- The memory after a write, from the write's start on.
take-drop-splice :
    (lo : ℕ) (ys xs : List ℕ) → lo ≤ length xs → take (length ys) (drop lo (splice lo ys xs)) ≡ ys
take-drop-splice lo ys xs h =
    let l : length (take lo xs) ≡ lo = length-take lo xs ∙ omega arith in
    let at_start : lo - length (take lo xs) ≡ 0 = omega (arith, l) in
    rw (drop_prefix lo (take lo xs) (ys ++ drop (lo + length ys) xs) (omega (arith, l))) (
      ap (λ k. take (length ys) (drop k (ys ++ drop (lo + length ys) xs))) at_start
      ∙ take_prefix (length ys) ys (drop (lo + length ys) xs) refl)

-- The read's range: from the same start, as many bytes as were stored.
abbrev pub read_back : Arglist → ℕ → File → Arglist
read_back a n f = record a {
  soft_flag = true;
  jsonout_flag = false;
  range_hi = a.range_lo + count a n f;
}

span_numbers :
    (lo hi n len dstmax : ℕ)
    → min n (hi - lo) ≤ dstmax
    → (if leb lo (lo + min n (hi - lo))
        then min (min (lo + min n (hi - lo) - lo) dstmax) (larger len (min (lo + n) hi) - lo)
        else min dstmax (larger len (min (lo + n) hi) - lo))
      ≡ min n (hi - lo)
span_numbers lo hi n len dstmax h = ground arith

span-count :
    (a : Arglist) (n : ℕ) (f : File) (dstmax : ℕ)
    → count a n f ≤ dstmax
    → read_span dstmax a.range_lo (a.range_lo + count a n f) (larger f.length (reach a n f))
      ≡ count a n f
span-count a n f dstmax room =
    read_span-exact dstmax a.range_lo (a.range_lo + count a n f) (larger f.length (reach a n f))
    ∙ span_numbers a.range_lo (min a.range_hi f.alloc) n f.length dstmax room

module _ (fs : Otfs) (a : Arglist) (n : ℕ) (f : File) (memory : List ℕ) (db2 : fs.Db) where
  -- The filesystem after the write's vl_close.
  abbrev pub closed : fs.Db
  closed = fs.close (file_after fs a n f memory db2) (db_after fs a n f memory db2)

  abbrev pub stored : List ℕ
  stored = splice a.range_lo (take (count a n f) (data_of a.filedata)) memory

module _ (fs : Otfs) (a : Arglist) (n : ℕ) (f : File) (memory : List ℕ) (db2 db3 : fs.Db)
    (header : ℕ) where
  -- A success with that count and those bytes at `dst`.
  abbrev pub replied : List ℕ → ℕ → List ℕ → Reply fs
  replied mem k bytes = record {
    rc = pos k;
    mem = put_at 0 bytes mem;
    db = fs.close (file_after fs a n f memory db2) db3;
    sent = none;
  }

  read-stored :
      (devmgr : Option (List ℕ → List ℕ → ℤ × List ℕ)) (now_ms dstmax : ℕ) (mem : List ℕ)
      → n ≤ length (data_of a.filedata)
      → a.range_lo < f.alloc
      → f.alloc ≤ length memory
      → count a n f ≤ dstmax
      → fs.open_file header (closed fs a n f memory db2)
        ≡ (some (file_after fs a n f memory db2), db3)
      → fs.memptr (file_after fs a n f memory db2) db3 ≡ some (stored fs a n f memory db2)
      → read_found fs devmgr now_ms
          (read_back a n f)
          dstmax
          mem
          (located header (closed fs a n f memory db2))
        ≡ some (replied mem (count a n f) (take (count a n f) (data_of a.filedata)))
  read-stored devmgr now_ms dstmax mem bytes low big room opens points =
      let bytes_stored = take (count a n f) (data_of a.filedata) in
      let all : length bytes_stored ≡ count a n f =
        length-take (count a n f) (data_of a.filedata) ∙ omega (arith, bytes) in
      let span = span-count a n f dstmax room in
      let read = take-drop-splice a.range_lo bytes_stored memory (omega (arith, low, big)) in
      read_found-local fs devmgr now_ms (read_back a n f) dstmax mem header
        (file_after fs a n f memory db2) (stored fs a n f memory db2) (closed fs a n f memory db2)
        db3 refl refl opens points
      ∙ ap (λ k. some (replied mem k (take k (drop a.range_lo (stored fs a n f memory db2))))) span
      ∙ ap (λ m. some (replied mem (count a n f) m))
          (ap (λ k. take k (drop a.range_lo (stored fs a n f memory db2))) (sym all) ∙ read)

-- On a filesystem library whose vl_close keeps the file and the memory that were written, for a
-- device that is selected, a file that opens, a start inside its allocation, and data that is no
-- shorter than its size says: cmd_write or cmd_pub succeeds, and a local read of as many bytes as were
-- stored, from the same start, returns their number and puts the data's first bytes at `dst`, as
-- many as that.
pub read-write :
    (fs : Otfs) (a : Arglist) (n : ℕ) (f : File) (memory : List ℕ) (db db1 db2 db3 : fs.Db)
    (header : ℕ) (devmgr : Option (List ℕ → List ℕ → ℤ × List ℕ)) (now_ms dstmax : ℕ) (mem : List ℕ)
    → select fs a.devid db ≡ selected db1
    → fs.getheader a.block_id a.file_id access_w db1 ≡ (pos 0, header)
    → fs.open_file header db1 ≡ (some f, db2)
    → fs.memptr f db2 ≡ some memory
    → a.filedata_size ≡ pos n
    → n ≤ length (data_of a.filedata)
    → a.range_lo < f.alloc
    → f.alloc ≤ length memory
    → count a n f ≤ dstmax
    → fs.open_file header (closed fs a n f memory db2)
      ≡ (some (file_after fs a n f memory db2), db3)
    → fs.memptr (file_after fs a n f memory db2) db3 ≡ some (stored fs a n f memory db2)
    → (attempt fs (pos 0) a db
        ≡ wrote
            (file_after fs a n f memory db2)
            (clip (pos n) a.range_lo (min a.range_hi f.alloc))
            (min a.range_hi f.alloc)
            (db_after fs a n f memory db2))
      × (read_found fs devmgr now_ms
            (read_back a n f)
            dstmax
            mem
            (located header (closed fs a n f memory db2))
          ≡ some (
              replied fs a n f memory db2 db3 header mem
                (count a n f)
                (take (count a n f) (data_of a.filedata))))
read-write fs a n f memory db db1 db2 db3 header devmgr now_ms dstmax mem sel head opens points size
      bytes low big room opens_again points_again =
    (
      attempt-exact fs a n f memory db db1 db2 header sel head opens points size low,
      read-stored fs a n f memory db2 db3 header devmgr now_ms dstmax mem bytes low big room
          opens_again points_again,
    )
