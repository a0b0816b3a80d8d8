-- ===== src/Save.antt =====
-- The export of one file in cmd_save of main/cmd_save.c: what is written of its contents, by the template.
-- Where a result is an Option, `none` is an access outside memory.
pub mod Archive
pub mod Merged
mod Tests
use otdb.Base.{
  ℕ, zero, suc, ◌+◌, ◌*◌, ◌-◌, List, [], ◌∷◌, ◌++◌, Bool, true, false, Option, none, some, length,
  take, drop, min, replicate, ltb, leb, ◌&&◌, if◌then◌else◌,
}
use otdb.Base.Maybe.{◌>>=◌}
use otdb.Base.Int.{ℤ, pos, negsuc, ◌+ℤ◌}
use otdb.Text.{codes, show_dec, show_hex}
use otdb.Hex.{hexwrite}
use otdb.Otfs.{File}
use otdb.Args.{low_bits}
use otdb.Cjson.{Cjson, Floats}
use otdb.JsonTools.{
  ContentType, content_hex, content_array, content_struct, extract_id, extract_blockid,
  extract_size, extract_type, extract_pos, extract_bitpos,
}
use otdb.JsonTools.Names.{extract_typesize}
use otdb.JsonTools.Elements.{Added, nothing, c_text, store_element}
use otdb.OpenLoad.DataFile.{object_of}

-- An element of the output, and the elements that are added to it.
pub record Element : Type 0 where
  pub name : List ℕ
  pub value : Added
  pub nested : List (List ℕ × Added)

-- The output's "_content": hex digits and numbers stand in it under the name of the file.
pub data Contents : Type 0 where
  hex_contents : List ℕ → Contents
  array_contents : List ℕ → Contents
  struct_contents : List Element → Contents

-- What one JSON file is written with: its path behind the device's directory, the name of the object in
-- it, and the additions to the copy of the template's "_meta".
pub record Saved : Type 0 where
  pub path : List ℕ
  pub name : List ℕ
  pub devid : List ℕ
  pub modtime : ℕ
  pub contents : Contents

-- An access outside memory; no output; or the contents.
pub data Export : Type 0 where
  outside skipped : Export
  exported : Contents → Export

-- `%016x`
unfoldable hexuid : ℕ → List ℕ
hexuid uid = let digits = show_hex uid in replicate (16 - length digits) b'0' ++ digits

-- snprintf with a size of 31.
unfoldable file_path : ℕ → List ℕ → List ℕ
file_path file_id name =
    take 30 (codes "/" ++ (show_dec file_id ++ (codes "-" ++ (name ++ codes ".json"))))

-- The digits of `size` bytes, in a string of 2 * size + 1 bytes that is ended at `len` before.
unfoldable export_hex : ℕ → ℕ → List ℕ → Export
export_hex len size fdat =
    if leb len (2 * size) && leb size (length fdat)
    then exported (hex_contents (c_text (hexwrite (take size fdat)).0))
    else outside

unfoldable export_array : ℕ → List ℕ → Export
export_array size fdat =
    if leb size (length fdat) then exported (array_contents (take size fdat)) else outside

module _ (cj : Cjson) (fl : Floats) where
  -- jst_store_element at an address.
  unfoldable store_at : ℤ → ℕ → ℕ → ℤ → List ℕ → Option Added
  store_at (negsuc n) index bitpos bits mem = store_element fl [] index bitpos bits
  store_at (pos at) index bitpos bits mem = store_element fl (drop at mem) index bitpos bits

  unfoldable nested_item : ℤ → ℕ → ℤ → cj.Item → List ℕ → Option (List ℕ × Added)
  nested_item at index bits nest_tmpl mem =
      elim (store_at at index (low_bits 64 (extract_bitpos cj fl (some nest_tmpl))) bits mem) [
        | none ↦ none
        | some a ↦ some (cj.name nest_tmpl, a)
      ]

  unfoldable nested_items : ℤ → ℕ → ℤ → List cj.Item → List ℕ → Option (List (List ℕ × Added))
  nested_items at index bits [] mem = some []
  nested_items at index bits (t ∷ ts) mem = do
    a ← nested_item at index bits t mem
    rest ← nested_items at index bits ts mem
    some (a ∷ rest)

  -- The elements of the "_content" that is in the "_meta". Nothing is added to a null pointer.
  unfoldable export_nested :
      ℤ → ℕ → ℤ → Added → Option cj.Item → List ℕ → Option (List (List ℕ × Added))
  export_nested at index bits nothing content mem = some []
  export_nested at index bits nest_output none mem = some []
  export_nested at index bits nest_output (some content) mem =
      nested_items at index bits (cj.children content) mem

  unfoldable nested_content : Option cj.Item → Option cj.Item
  nested_content none = none
  nested_content (some nest_tmpl) = cj.get_item nest_tmpl (codes "_content")

  unfoldable export_element : ℕ → cj.Item → List ℕ → Option Element
  export_element base content mem = do
    let at = pos base +ℤ extract_pos cj (some content)
    let (index, bits) = extract_typesize cj (some content)
    nest_output ← store_at at index 0 bits mem
    nested ←
        export_nested at index bits nest_output
          (nested_content (cj.get_item content (codes "_meta"))) mem
    let element : Element = record { name = cj.name content; value = nest_output; nested = nested }
    some element

  unfoldable export_elements : ℕ → List cj.Item → List ℕ → Option (List Element)
  export_elements base [] mem = some []
  export_elements base (content ∷ contents) mem = do
    element ← export_element base content mem
    rest ← export_elements base contents mem
    some (element ∷ rest)

  unfoldable structured : Option (List Element) → Export
  structured none = outside
  structured (some []) = skipped
  structured (some (e ∷ es)) = exported (struct_contents (e ∷ es))

  unfoldable export_struct : ℕ → Option cj.Item → List ℕ → Export
  export_struct base none mem = skipped
  export_struct base (some content) mem =
      structured (export_elements base (cj.children content) mem)

  -- The three types of contents of a file whose data begin at `base`.
  unfoldable export_content : ContentType → ℕ → ℕ → File → Option cj.Item → List ℕ → Export
  export_content content_hex base size fp content mem = export_hex fp.length size (drop base mem)
  export_content content_array base size fp content mem = export_array size (drop base mem)
  export_content content_struct base size fp content mem = export_struct base content mem

  -- From the "_meta" `meta` of the object `obj`.
  unfoldable export_file : ℕ → File → cj.Item → cj.Item → List ℕ → Export
  export_file base fp meta obj mem =
      export_content (extract_type cj (some meta)) base
        (min fp.length (extract_size cj (some meta))) fp
        (object_of cj fl (cj.get_item obj (codes "_content"))) mem
