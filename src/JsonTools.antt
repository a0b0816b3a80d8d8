-- ===== src/JsonTools.antt =====
-- The JSON readers of main/json_tools.c: what they take from a "_meta" object.
pub mod Names
pub mod Elements
pub mod Types
mod Tests
use otdb.Base.{
  ℕ, suc, ◌+◌, ◌-◌, ◌*◌, ◌%◌, ◌^◌, List, [], ◌∷◌, Bool, true, false, ◌&&◌, ◌||◌, not, Option, none,
  some, get_or, length, drop, take, ltb, leb, ◌==◌, if◌then◌else◌,
}
use otdb.Base.Int.{ℤ, pos, negsuc, sub_ℕ, ltb_ℤ}
use otdb.Base.Bytes.{bytes_eq}
use otdb.Text.{codes, strtoull}
use otdb.Args.{low_bits}
use otdb.Cjson.{Cjson, Floats}

-- content_type_enum
pub data ContentType : Type 0 where
  content_hex content_array content_struct : ContentType

unfoldable pub block_named : Option (List ℕ) → ℕ
block_named none = 3
block_named (some elemstr) =
    if bytes_eq elemstr (codes "gfb") then 1 else if bytes_eq elemstr (codes "iss") then 2 else 3

unfoldable pub is_nonzero : ℤ → Bool
is_nonzero (pos n) = not (n == 0)
is_nonzero (negsuc n) = true

unfoldable pub type_named : Option (List ℕ) → ContentType
type_named none = content_hex
type_named (some elemstr) =
    if bytes_eq elemstr (codes "struct")
    then content_struct
    else if bytes_eq elemstr (codes "array")
    then content_array
    else content_hex

module _ (cj : Cjson) where
  unfoldable pub int_of : Option cj.Item → ℤ
  int_of none = pos 0
  int_of (some elem) = if cj.is_number elem then cj.valueint elem else pos 0

  unfoldable pub member : Option cj.Item → List ℕ → Option cj.Item
  member none name = none
  member (some meta) name = cj.get_item meta name

  unfoldable pub extract_int : Option cj.Item → List ℕ → ℤ
  extract_int meta name = int_of (member meta name)

  unfoldable pub double_of : Option cj.Item → ℕ
  double_of none = 0
  double_of (some elem) = if cj.is_number elem then cj.valuedouble elem else 0

  unfoldable pub extract_double : Option cj.Item → List ℕ → ℕ
  extract_double meta name = double_of (member meta name)

  unfoldable pub string_of : Option cj.Item → Option (List ℕ)
  string_of none = none
  string_of (some elem) = if cj.is_string elem then cj.valuestring elem else none

  unfoldable pub extract_string : Option cj.Item → List ℕ → Option (List ℕ)
  extract_string meta name = string_of (member meta name)

  unfoldable pub extract_id : Option cj.Item → ℕ
  extract_id meta = low_bits 8 (extract_int meta (codes "id"))

  unfoldable pub extract_mod : Option cj.Item → ℕ
  extract_mod meta = low_bits 8 (extract_int meta (codes "mod"))

  unfoldable pub text_of : Option cj.Item → Option (List ℕ)
  text_of none = none
  text_of (some elem) = cj.valuestring elem

  -- jst_blockid
  unfoldable pub blockid : Option cj.Item → ℕ
  blockid block_elem = block_named (text_of block_elem)

  unfoldable pub extract_blockid : Option cj.Item → ℕ
  extract_blockid meta = blockid (member meta (codes "block"))

  unfoldable pub extract_size : Option cj.Item → ℕ
  extract_size meta = low_bits 16 (extract_int meta (codes "size"))

  unfoldable pub extract_time : Option cj.Item → ℕ
  extract_time meta = low_bits 32 (extract_int meta (codes "modtime"))

  unfoldable pub extract_stock : Option cj.Item → Bool
  extract_stock meta = is_nonzero (extract_int meta (codes "stock"))

  -- jst_tmpltype
  unfoldable pub tmpltype : Option cj.Item → ContentType
  tmpltype type_elem = type_named (text_of type_elem)

  unfoldable pub extract_type : Option cj.Item → ContentType
  extract_type meta = tmpltype (member meta (codes "type"))

  unfoldable pub extract_pos : Option cj.Item → ℤ
  extract_pos meta = extract_int meta (codes "pos")

  unfoldable pub bitpos_of : Floats → Option cj.Item → ℤ
  bitpos_of fl none = pos 0
  bitpos_of fl (some elem) =
      if cj.is_number elem then fl.hundredths (cj.valuedouble elem) else pos 0

  unfoldable pub extract_bitpos : Floats → Option cj.Item → ℤ
  extract_bitpos fl meta = bitpos_of fl (member meta (codes "pos"))
