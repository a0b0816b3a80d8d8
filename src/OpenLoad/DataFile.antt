-- ===== src/OpenLoad/DataFile.antt =====
-- cmdsub_datafile of main/cmd_open_load.c: the data files of a device are merged into its filesystem,
-- by the template. The loop over the directory is before it: what it leaves is an argument.
pub mod Arrays
pub mod Merge
use otdb.Base.{
  ℕ, zero, suc, ◌+◌, ◌%◌, List, [], ◌∷◌, Bool, true, false, Option, none, some, length, min, ◌==◌,
  ◌&&◌, if◌then◌else◌, not,
}
use otdb.Base.Int.{ℤ, pos, negsuc, ◌+ℤ◌, ◌-ℤ◌, pos_part, ltb_ℤ}
use otdb.DevLink.{bytes_le}
use otdb.Text.{codes}
use otdb.Hex.{hexnread}
use otdb.Otfs.{File}
use otdb.Cjson.{Cjson, Floats}
use otdb.JsonTools.{
  ContentType, content_hex, content_array, content_struct, extract_id, extract_blockid,
  extract_size, extract_time, extract_type, extract_pos, extract_string, text_of,
}
use otdb.JsonTools.Elements.{Loaded}
use otdb.OpenLoad.Contents.{put_in, array_bytes, Filled, with_length, load_at, bit_position}

-- What the library gives of the device's filesystem: its memory, where vl_memptr points to in it, and
-- ISF_open_su, vl_open for reading and writing, vl_setmodtime and vl_close.
pub record Volume : Type 1 where
  pub Db : Type 0
  pub open_su : ℕ → Db → Option File × Db
  pub open_rw : ℕ → ℕ → Db → Option File × Db
  pub memptr : File → Db → Option ℕ
  pub memory : Db → List ℕ
  pub with_memory : List ℕ → Db → Db
  pub setmodtime : File → ℕ → Db → Db
  pub close : File → Db → Db

-- filemeta_t
pub record FileMeta : Type 0 where
  pub block : ℕ
  pub fileid : ℕ
  pub ctype : ContentType
  pub size : ℕ
  pub modtime : ℕ

-- The length a file gets from its contents.
unfoldable pub extended : ℤ → File → ℕ
extended derived fp =
    let cut = if ltb_ℤ (pos fp.alloc) derived then fp.alloc else pos_part derived in
    if ltb_ℤ (pos fp.length) derived then cut % 65536 else fp.length

unfoldable pub with_extended : File → Loaded → Filled
with_extended fp none = none
with_extended fp (some (mem, derived)) = some (mem, extended derived fp)

module _ (cj : Cjson) (fl : Floats) where
  -- cJSON_IsObject
  unfoldable pub object_of : Option cj.Item → Option cj.Item
  object_of none = none
  object_of (some i) = if cj.is_object i then some i else none

  unfoldable pub data_meta : ℕ → cj.Item → FileMeta
  data_meta now obj =
      let time = extract_time cj (some obj) in
      record {
        block = extract_blockid cj (some obj);
        fileid = extract_id cj (some obj);
        ctype = extract_type cj (some obj);
        size = extract_size cj (some obj);
        modtime = if time == 0 then now else time;
      }

  unfoldable is_same_file : FileMeta → cj.Item → Bool
  is_same_file dmeta obj =
      (dmeta.block == extract_blockid cj (some obj))
      && ((dmeta.fileid == extract_id cj (some obj)) && (dmeta.size == extract_size cj (some obj)))

  unfoldable pub load_named : ℤ → ℤ → cj.Item → Option cj.Item → List ℕ → Loaded
  load_named at limit t_content value mem =
      load_at cj fl at limit (bit_position cj fl t_content)
        (extract_string cj (some t_content) (codes "type")) value mem

  -- The elements of a nested one that are in the data, too.
  unfoldable pub merge_items : ℤ → ℤ → cj.Item → List cj.Item → List ℕ → Option (List ℕ)
  merge_items at size d_elem [] mem = some mem
  merge_items at size d_elem (t_content ∷ rest) mem =
      elim (cj.get_item d_elem (cj.name t_content)) [
        | none ↦ merge_items at size d_elem rest mem
        | some d ↦ elim (load_named at size t_content (some d) mem) [
          | none ↦ none
          | some (m, n) ↦ merge_items at size d_elem rest m
        ]
      ]

  unfoldable pub ends_at : ℤ → Option (List ℕ) → Loaded
  ends_at derived none = none
  ends_at derived (some mem) = some (mem, derived)

  unfoldable pub shifted : ℤ → Loaded → Loaded
  shifted bytepos none = none
  shifted bytepos (some (mem, bytesout)) = some (mem, bytepos +ℤ bytesout)

  unfoldable pub merge_flat : ℕ → ℕ → cj.Item → cj.Item → List ℕ → Loaded
  merge_flat base size obj d_elem mem =
      let bytepos = extract_pos cj (some obj) in
      shifted bytepos (load_named (pos base +ℤ bytepos) (pos size -ℤ bytepos) obj (some d_elem) mem)

  -- An element of the template that the data have, from its "_meta" and its "_content".
  unfoldable pub merge_element :
      ℕ → ℕ → cj.Item → cj.Item → Option cj.Item → Option cj.Item → List ℕ → Loaded
  merge_element base size obj d_elem (some t_meta) (some t_content) mem =
      let bytepos = extract_pos cj (some t_meta) in
      let bytesout = pos (extract_size cj (some t_meta)) in
      ends_at (bytepos +ℤ bytesout)
        (merge_items (pos base +ℤ bytepos) bytesout d_elem (cj.children t_content) mem)
  merge_element base size obj d_elem none t_content mem = merge_flat base size obj d_elem mem
  merge_element base size obj d_elem (some t_meta) none mem = merge_flat base size obj d_elem mem

  -- CONTENT_struct: the last number is `derived_length`.
  unfoldable pub merge_struct : ℕ → ℕ → cj.Item → List cj.Item → List ℕ → ℤ → Loaded
  merge_struct base size content [] mem derived = some (mem, derived)
  merge_struct base size content (obj ∷ objs) mem derived =
      elim (cj.get_item content (cj.name obj)) [
        | none ↦ merge_struct base size content objs mem derived
        | some d_elem ↦
            elim (merge_element base size obj d_elem (object_of (cj.get_item obj (codes "_meta")))
              (object_of (cj.get_item obj (codes "_content"))) mem) [
                | none ↦ none
                | some (m, d) ↦ merge_struct base size content objs m d
              ]
      ]

  -- The length of the array and of its part in the file.
  unfoldable pub merge_array : ℕ → ℕ → cj.Item → List ℕ → Loaded
  merge_array base size content mem =
      let bytes = array_bytes cj size (cj.children content) in
      ends_at (pos (length bytes)) (put_in base bytes mem)

  unfoldable pub merge_hex : ℕ → ℕ → Option (List ℕ) → List ℕ → Filled
  merge_hex base size none mem = none
  merge_hex base size (some text) mem =
      let bytes = hexnread text size in with_length (length bytes) (put_in base bytes mem)

  -- The contents of one file, `base` being where its data begin, and its new length.
  unfoldable pub merge_content : ContentType → ℕ → ℕ → File → cj.Item → cj.Item → List ℕ → Filled
  merge_content content_hex base size fp content tmpl mem =
      merge_hex base size (text_of cj (some content)) mem
  merge_content content_array base size fp content tmpl mem =
      with_extended fp (merge_array base size content mem)
  merge_content content_struct base size fp content tmpl mem =
      with_extended fp (merge_struct base size content (cj.children tmpl) mem (pos 0))
