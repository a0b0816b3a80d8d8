-- ===== src/OpenLoad/Contents.antt =====
-- What main/cmd_open_load.c writes to files: the default contents of a template in cmd_open (4c), and the
-- contents of data files in cmdsub_datafile. The memory is a list of bytes, and `none` is an access
-- outside it.
pub mod Inside
use otdb.Base.{
  ℕ, zero, suc, ◌+◌, ◌-◌, ◌%◌, List, [], ◌∷◌, ◌++◌, Bool, true, false, Option, none, some, length,
  take, drop, min, ltb, leb, ◌==◌, ◌&&◌, if◌then◌else◌,
}
use otdb.Base.Int.{ℤ, pos, negsuc, ◌+ℤ◌, ◌-ℤ◌, pos_part, ltb_ℤ}
use otdb.Text.{codes}
use otdb.Args.{low_bits}
use otdb.Hex.{hexnread}
use otdb.Cjson.{Cjson, Floats}
use otdb.JsonTools.{
  ContentType, content_hex, content_array, content_struct, extract_pos, extract_size,
  extract_string, extract_bitpos, text_of,
}
use otdb.JsonTools.Elements.{Loaded, load_element, put}

unfoldable pub behind : List ℕ → Loaded → Loaded
behind front none = none
behind front (some (mem, n)) = some (front ++ mem, n)

-- Bytes put at an offset.
unfoldable pub put_in : ℕ → List ℕ → List ℕ → Option (List ℕ)
put_in at bytes mem = elim (put bytes (drop at mem)) [
  | none ↦ none
  | some m ↦ some (take at mem ++ m)
]

-- The bytes of an array's numbers, at most `n` of them.
unfoldable pub array_bytes : (cj : Cjson) → ℕ → List cj.Item → List ℕ
array_bytes cj zero is = []
array_bytes cj (suc n) [] = []
array_bytes cj (suc n) (i ∷ is) = low_bits 8 (cj.valueint i) ∷ array_bytes cj n is

-- A memory with the length of the file in it.
abbrev pub Filled : Type 0
Filled = Option (List ℕ × ℕ)

unfoldable pub with_length : ℕ → Option (List ℕ) → Filled
with_length n none = none
with_length n (some mem) = some (mem, n)

module _ (cj : Cjson) (fl : Floats) where
  -- jst_load_element at an address: where that is outside, the call may still return without an access.
  unfoldable pub load_at : ℤ → ℤ → ℕ → Option (List ℕ) → Option cj.Item → List ℕ → Loaded
  load_at (negsuc n) limit bitpos type value mem =
      elim (load_element cj fl [] limit bitpos type value) [
        | none ↦ none
        | some (m, n) ↦ some (mem, n)
      ]
  load_at (pos at) limit bitpos type value mem =
      behind (take at mem) (load_element cj fl (drop at mem) limit bitpos type value)

  unfoldable pub bit_position : cj.Item → ℕ
  bit_position item = low_bits 32 (extract_bitpos cj fl (some item))

  -- The items of a nested element, all at its address.
  unfoldable pub default_items : ℤ → ℤ → List cj.Item → List ℕ → Option (List ℕ)
  default_items at size [] mem = some mem
  default_items at size (sub ∷ subs) mem =
      let loaded =
        load_at at size (bit_position sub) (extract_string cj (some sub) (codes "type"))
          (cj.get_item sub (codes "def")) mem in
      elim loaded [ none ↦ none | some (m, n) ↦ default_items at size subs m ]

  unfoldable pub default_nested : ℤ → ℤ → Option cj.Item → List ℕ → Option (List ℕ)
  default_nested at size none mem = some mem
  default_nested at size (some content) mem = default_items at size (cj.children content) mem

  -- The new length of a file: the end of its longest element.
  unfoldable pub longest : ℕ → ℤ → ℕ
  longest len end = if ltb_ℤ (pos len) end then pos_part end else len

  unfoldable pub extends_to : ℕ → ℤ → Loaded → Filled
  extends_to len offset none = none
  extends_to len offset (some (mem, n)) = some (mem, longest len (offset +ℤ n))

  -- One element of a struct: `base` is where the file begins, and `meta` the element's "_meta".
  unfoldable pub default_element : ℤ → ℕ → cj.Item → Option cj.Item → List ℕ → ℕ → Filled
  default_element base alloc content (some meta) mem len =
      let offset = extract_pos cj (some meta) in
      let size = pos (extract_size cj (some meta)) in
      elim (default_nested (base +ℤ offset) size (cj.get_item content (codes "_content")) mem) [
        | none ↦ none
        | some m ↦ some (m, longest len (offset +ℤ size))
      ]
  default_element base alloc content none mem len =
      let offset = extract_pos cj (some content) in
      extends_to len offset (
        load_at (base +ℤ offset) (pos alloc -ℤ offset) 0
          (extract_string cj (some content) (codes "type")) (cj.get_item content (codes "def")) mem)

  unfoldable pub default_struct : ℤ → ℕ → List cj.Item → List ℕ → ℕ → Filled
  default_struct base alloc [] mem len = some (mem, len)
  default_struct base alloc (content ∷ contents) mem len =
      elim (default_element base alloc content (cj.get_item content (codes "_meta")) mem len) [
        | none ↦ none
        | some (m, n) ↦ default_struct base alloc contents m n
      ]

  unfoldable pub default_array : ℕ → ℕ → cj.Item → List ℕ → Filled
  default_array base alloc content mem =
      let bytes = array_bytes cj alloc (cj.children content) in
      if cj.is_array content
      then with_length (length bytes) (put_in base bytes mem)
      else some (mem, 0)

  unfoldable pub default_hex : ℕ → ℕ → Option (List ℕ) → List ℕ → Filled
  default_hex base alloc none mem = some (mem, 0)
  default_hex base alloc (some text) mem =
      let bytes = hexnread text alloc in with_length (length bytes) (put_in base bytes mem)

  -- 4c for one file: its contents at `base` and its length.
  unfoldable pub default_content : ContentType → ℕ → ℕ → Option cj.Item → List ℕ → Filled
  default_content type base alloc none mem = some (mem, 0)
  default_content content_struct base alloc (some content) mem =
      default_struct (pos base) alloc (cj.children content) mem 0
  default_content content_array base alloc (some content) mem = default_array base alloc content mem
  default_content content_hex base alloc (some content) mem =
      default_hex base alloc (if cj.is_string content then text_of cj (some content) else none) mem
