-- ===== src/Files/Write/Exact.antt =====
-- What cmd_write and cmd_pub of main/cmd_filecmds.c store, and where.
use otdb.Base.{
  ℕ, ◌+◌, ◌-◌, ◌<◌, ◌≡◌, ◌∙◌, refl, sym, ap, List, [], ◌++◌, false, some, if◌then◌else◌, min, ltb,
  leb, take, drop, take-append-drop, arith,
}
use otdb.Base.Int.{pos, ◌+ℤ◌, pos_part, ltb_ℤ}
use otdb.Base.Splice.{splice}
use otdb.Base.Branch.{if-both}
use otdb.Args.{Arglist}
use otdb.Otfs.{Otfs, File, access_w}
use otdb.Files.{selected, select}
use otdb.Files.Write.{
  write_selected, data_of, clip, grown, copied, wrote, write_memory, write_file, write_range,
  attempt,
}

-- How many bytes are stored: the data, as far as the range and the allocation reach.
abbrev pub count : Arglist → ℕ → File → ℕ
count a n f = min n (min a.range_hi f.alloc - a.range_lo)

-- The end of what is stored; before `range_lo` where the range is empty.
abbrev pub reach : Arglist → ℕ → File → ℕ
reach a n f = min (a.range_lo + n) (min a.range_hi f.alloc)

abbrev pub larger : ℕ → ℕ → ℕ
larger a b = if ltb a b then b else a

pub clip_parts : (n lo hi : ℕ) → pos_part (clip (pos n) lo hi) ≡ min n (hi - lo)
unfolding clip
clip_parts n lo hi = ground arith

clip_end : (n lo hi : ℕ) → clip (pos n) lo hi +ℤ pos lo ≡ pos (min (lo + n) hi)
unfolding clip ◌+ℤ◌
clip_end n lo hi = ground arith

grown-clip : (len n lo hi : ℕ) → grown len (clip (pos n) lo hi) lo ≡ larger len (min (lo + n) hi)
unfolding grown
grown-clip len n lo hi = rw (clip_end n lo hi) (ground arith)

splice-nothing : (lo : ℕ) (memory : List ℕ) → splice lo [] memory ≡ memory
splice-nothing lo memory =
    ap (λ k. take lo memory ++ drop k memory) (omega arith) ∙ take-append-drop lo memory

pub copied-clip :
    (n lo hi : ℕ) (bytes memory : List ℕ)
    → copied lo (clip (pos n) lo hi) bytes memory ≡ splice lo (take (min n (hi - lo)) bytes) memory
unfolding copied
copied-clip n lo hi bytes memory =
    let span = clip (pos n) lo hi in
    if-both (λ m. m ≡ splice lo (take (min n (hi - lo)) bytes) memory) (ltb_ℤ (pos 0) span) _ _
      (λ _. ap (λ k. splice lo (take k bytes) memory) (clip_parts n lo hi))
      (λ e.
        let none_left : min n (hi - lo) ≡ 0 = ground (arith, e, clip_parts n lo hi) in
        rw none_left (sym (splice-nothing lo memory)))

module _ (fs : Otfs) (a : Arglist) (n : ℕ) (f : File) (memory : List ℕ) (db : fs.Db) where
  -- The file after the write, and the filesystem with its memory.
  abbrev pub file_after : File
  file_after = record f { length = larger f.length (reach a n f) }

  abbrev pub db_after : fs.Db
  db_after =
      fs.poke file_after (splice a.range_lo (take (count a n f) (data_of a.filedata)) memory) db

  write_memory-exact :
      a.filedata_size ≡ pos n
      → a.range_lo < f.alloc
      → write_memory fs a f (some memory) db
        ≡ wrote file_after
            (clip (pos n) a.range_lo (min a.range_hi f.alloc))
            (min a.range_hi f.alloc)
            db_after
  unfolding write_memory
  write_memory-exact size low =
      let hi = min a.range_hi f.alloc in
      let inside : leb f.alloc a.range_lo ≡ false = ground arith in
      rw
        (
          inside,
          size,
          grown-clip f.length n a.range_lo hi,
          copied-clip n a.range_lo hi (data_of a.filedata) memory,
        )
        refl

-- With the filesystem of the device selected and the file opened, and `range_lo` inside its
-- allocation, cmd_write and cmd_pub replace the `count` bytes of the file's memory from `range_lo` on
-- by the data's first `count`, where `count` is the least of the data's size and what the range
-- and the allocation leave, and the file's length becomes the larger of what it was and `reach`, the
-- least of `range_lo` plus the data's size, the range's end and the allocation.
pub attempt-exact :
    (fs : Otfs) (a : Arglist) (n : ℕ) (f : File) (memory : List ℕ) (db db1 db2 : fs.Db) (header : ℕ)
    → select fs a.devid db ≡ selected db1
    → fs.getheader a.block_id a.file_id access_w db1 ≡ (pos 0, header)
    → fs.open_file header db1 ≡ (some f, db2)
    → fs.memptr f db2 ≡ some memory
    → a.filedata_size ≡ pos n
    → a.range_lo < f.alloc
    → attempt fs (pos 0) a db
      ≡ wrote
          (file_after fs a n f memory db2)
          (clip (pos n) a.range_lo (min a.range_hi f.alloc))
          (min a.range_hi f.alloc)
          (db_after fs a n f memory db2)
unfolding attempt write_selected write_range write_file
attempt-exact fs a n f memory db db1 db2 header s h o m size low =
    rw (s, h, o, m) (write_memory-exact fs a n f memory db2 size low)
