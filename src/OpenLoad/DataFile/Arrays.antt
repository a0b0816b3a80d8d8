-- ===== src/OpenLoad/DataFile/Arrays.antt =====
-- Files of bytes in the data of a device, CONTENT_array in cmdsub_datafile of main/cmd_open_load.c.
use mathlib.Core.Path.{subst}
use otdb.Base.{true, sym, ℕ, ◌+◌, ◌≤◌, ◌<◌, ◌≡◌, refl, List, Option, none, some, length, min, arith}
use otdb.Base.Int.{pos}
use otdb.Cjson.{Cjson, Floats}
use otdb.Otfs.{File}
use otdb.JsonTools.{content_array}
use otdb.OpenLoad.Contents.{put_in, array_bytes, with_length}
use otdb.OpenLoad.Contents.Inside.{IsInside, put_in-IsInside, length-array_bytes}
use otdb.OpenLoad.DataFile.{
  Volume, FileMeta, extended, with_extended, ends_at, merge_array, merge_content,
}
use otdb.OpenLoad.DataFile.Merge.{close_filled, merge_file}

-- The length of a file only grows, to the end of its contents.
extended-array :
    (n : ℕ) (fp : File)
    → n ≤ fp.alloc
    → fp.length ≤ fp.alloc
    → fp.alloc < 65536
    → (extended (pos n) fp ≤ fp.alloc)
      × (fp.length ≤ extended (pos n) fp)
      × (n ≤ extended (pos n) fp)
unfolding extended
extended-array n fp h k small = ground arith

put_in_result :
    (n len : ℕ) (r : Option (List ℕ)) (after : List ℕ)
    → with_length n r ≡ some (after, len)
    → r ≡ some after
unfolding with_length
put_in_result n len none after e = cc
put_in_result n len (some m) after e = cc

-- The contents alone.
merge_array-IsInside :
    (cj : Cjson) (fl : Floats) (base size : ℕ) (fp : File) (content tmpl : cj.Item) (mem : List ℕ)
    → fp.length ≤ fp.alloc
    → fp.alloc < 65536
    → base + fp.alloc ≤ length mem
    → (r : IsInside base fp.alloc mem
        (merge_content cj fl content_array base (min fp.alloc size) fp content tmpl mem))
      × (fp.length ≤ r.len)
unfolding merge_content merge_array ends_at with_extended
merge_array-IsInside cj fl base size fp content tmpl mem h small k =
    let bytes = array_bytes cj (min fp.alloc size) (cj.children content) in
    let fits : length bytes ≤ fp.alloc =
      omega (arith, length-array_bytes cj (min fp.alloc size) (cj.children content)) in
    let i = put_in-IsInside base fp.alloc bytes mem fits k in
    let l = extended-array (length bytes) fp fits h small in
    (
      record {
        after = i.after;
        len = extended (pos (length bytes)) fp;
        result =
            rw (put_in_result (length bytes) i.len (put_in base bytes mem) i.after i.result) refl;
        fits = l.0;
        size = i.size;
        before = i.before;
        behind = i.behind;
      },
      l.1,
    )

-- A file of a device whose "_content" in the data is an object, as it has to be, and whose type is that of
-- arrays: where the file's allocation, of less than 2^16 bytes, lies in the memory of the
-- filesystem and its length is at most the allocation, there is no access outside; at most the bytes
-- of the allocation change, and the file is closed with its time set and with a length that is at
-- most the allocation and never below the one before.
pub merge_file-IsInside :
    (cj : Cjson) (fl : Floats) (vol : Volume) (dmeta : FileMeta) (fp : File) (base : ℕ)
    (content tmpl : cj.Item) (db : vol.Db)
    → dmeta.ctype ≡ content_array
    → cj.is_object content ≡ true
    → fp.length ≤ fp.alloc
    → fp.alloc < 65536
    → base + fp.alloc ≤ length (vol.memory db)
    → (r : IsInside base fp.alloc (vol.memory db) (
        merge_content cj fl dmeta.ctype base
          (min fp.alloc dmeta.size)
          fp
          content
          tmpl
          (vol.memory db)))
      × (fp.length ≤ r.len)
      × (merge_file cj fl vol dmeta fp (some base) content tmpl db
          ≡ some (
              vol.close
                (record fp { length = r.len })
                (vol.setmodtime
                  (record fp { length = r.len })
                  dmeta.modtime
                  (vol.with_memory r.after db))))
unfolding merge_file close_filled
merge_file-IsInside cj fl vol dmeta fp base content tmpl db kind _ h small k =
    let (r, grows) =
      subst
        (λ c.
          (r : IsInside base fp.alloc (vol.memory db)
            (merge_content cj fl c base (min fp.alloc dmeta.size) fp content tmpl (vol.memory db)))
          × (fp.length ≤ r.len))
        (sym kind)
        (merge_array-IsInside cj fl base dmeta.size fp content tmpl (vol.memory db) h small k) in
    (r, grows, rw r.result refl)
