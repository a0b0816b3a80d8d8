-- ===== src/JsonTools/Names.antt =====
-- The names of types in main/json_tools.c: jst_parse_arraysize and jst_typesize.
use otdb.Base.{
  ℕ, ◌+◌, ◌-◌, ◌*◌, ◌%◌, ◌^◌, List, [], ◌∷◌, Bool, ◌&&◌, ◌||◌, not, Option, none, some, get_or,
  length, drop, take, ltb, leb, ◌==◌, if◌then◌else◌,
}
use otdb.Base.Int.{ℤ, pos, negsuc, sub_ℕ, ltb_ℤ}
use otdb.Base.Bytes.{bytes_eq}
use otdb.Text.{codes, strtoull}
use otdb.Args.{low_bits}
use otdb.Cjson.{Cjson}
use otdb.JsonTools.{extract_string}

-- An int, of what its low 32 bits say.
unfoldable pub as_int : ℕ → ℤ
as_int n = if ltb (n % 2 ^ 32) (2 ^ 31) then pos (n % 2 ^ 32) else negsuc (2 ^ 32 - 1 - n % 2 ^ 32)

-- strchr(s, c), as the text from the byte on
unfoldable pub strchr : List ℕ → ℕ → Option (List ℕ)
strchr [] c = none
strchr (b ∷ s) c = if b == c then some (b ∷ s) else strchr s c

unfoldable pub size_after : Option (List ℕ) → ℕ
size_after none = 0
size_after (some s) =
    let bracketexp = drop 1 s in
    elim (strchr bracketexp b']') [ none ↦ 0 | some t ↦ strtoull bracketexp 10 % 2 ^ 32 ]

-- jst_parse_arraysize, as the low 32 bits of the int
unfoldable pub parse_arraysize : List ℕ → ℕ
parse_arraysize bracketexp = size_after (strchr bracketexp b'[')

-- The values of typeinfo_enum.
abbrev pub type_bitmask : ℕ
type_bitmask = 0

abbrev pub type_bit1 : ℕ
type_bit1 = 1

abbrev pub type_bit8 : ℕ
type_bit8 = 8

abbrev pub type_string : ℕ
type_string = 9

abbrev pub type_hex : ℕ
type_hex = 10

abbrev pub type_int8 : ℕ
type_int8 = 11

abbrev pub type_int16 : ℕ
type_int16 = 13

abbrev pub type_int32 : ℕ
type_int32 = 15

abbrev pub type_int64 : ℕ
type_int64 = 17

abbrev pub type_float : ℕ
type_float = 19

abbrev pub type_double : ℕ
type_double = 20

abbrev pub type_max : ℕ
type_max = 21

-- typeinfo_t; the enum is an unsigned int.
pub record TypeInfo : Type 0 where
  pub index : ℕ
  pub bits : ℤ

abbrev pub spec_of : ℕ → ℕ → TypeInfo
spec_of index bits = record { index = index; bits = pos bits }

-- Text with a prefix, as strncmp tests it.
unfoldable pub starts : List ℕ → List ℕ → Bool
starts prefix s = bytes_eq (take (length prefix) s) prefix

-- Where nothing fits, the index is TYPE_MAX and the bits stay as they were.
unfoldable pub no_type : TypeInfo → TypeInfo
no_type spec = record spec { index = type_max }

-- cursor[2] - '0', of a signed char, and at most 8
unfoldable pub bit_count : ℕ → ℤ
bit_count c =
    let n = if leb 128 c then negsuc (255 - c + 48) else sub_ℕ c 48 in
    if ltb_ℤ (pos 8) n then pos 8 else n

-- 'b': bitmask, bool, bitX_t. What lies behind the text's end reads as the terminator.
unfoldable pub b_type : List ℕ → TypeInfo → TypeInfo
b_type cursor spec =
    if bytes_eq cursor (codes "itmask")
    then spec_of type_bitmask 0
    else if bytes_eq cursor (codes "ool")
    then spec_of type_bit1 1
    else if starts (codes "it") cursor && bytes_eq (drop 3 cursor) (codes "_t")
    then (let bits = bit_count (get_or cursor 2 0) in
        record { index = low_bits 32 bits; bits = bits })
    else no_type spec

-- 'c': char, or a string with its size in brackets
unfoldable pub c_type : List ℕ → TypeInfo → TypeInfo
c_type cursor spec =
    if starts (codes "har") cursor
    then (if get_or cursor 3 0 == b'['
        then record { index = type_string; bits = as_int (8 * parse_arraysize (drop 3 cursor)) }
        else spec_of type_int8 8)
    else no_type spec

-- 'h': hex, with its size in brackets or one byte
unfoldable pub h_type : List ℕ → TypeInfo → TypeInfo
h_type cursor spec =
    if starts (codes "ex") cursor
    then (if get_or cursor 2 0 == b'['
        then record { index = type_hex; bits = as_int (8 * parse_arraysize (drop 2 cursor)) }
        else spec_of type_hex 8)
    else no_type spec

-- 'i' and 'u', from "int" on: `offset` is 0 for signed numbers, 1 for unsigned ones.
unfoldable pub int_type : ℕ → List ℕ → TypeInfo → TypeInfo
int_type offset cursor spec =
    let width = drop 3 cursor in
    if not (starts (codes "int") cursor)
    then no_type spec
    else if get_or cursor 3 0 == 0 || bytes_eq width (codes "32_t")
    then spec_of (type_int32 + offset) 32
    else if bytes_eq width (codes "64_t")
    then spec_of (type_int64 + offset) 64
    else if bytes_eq width (codes "16_t")
    then spec_of (type_int16 + offset) 16
    else if bytes_eq width (codes "8_t")
    then spec_of (type_int8 + offset) 8
    else no_type spec

unfoldable pub named : List ℕ → List ℕ → TypeInfo → TypeInfo → TypeInfo
named cursor name found spec = if bytes_eq cursor name then found else no_type spec

-- The switch of jst_typesize on the first byte.
unfoldable pub typesize_of : List ℕ → TypeInfo → TypeInfo
typesize_of [] spec = no_type spec
typesize_of (c ∷ cursor) spec =
    if c == b'b'
    then b_type cursor spec
    else if c == b'c'
    then c_type cursor spec
    else if c == b'd'
    then named cursor (codes "ouble") (spec_of type_double 64) spec
    else if c == b'h'
    then h_type cursor spec
    else if c == b'f'
    then named cursor (codes "loat") (spec_of type_float 32) spec
    else if c == b'i'
    then int_type 0 (c ∷ cursor) spec
    else if c == b'u'
    then int_type 1 cursor spec
    else if c == b'l'
    then named cursor (codes "ong") (spec_of type_int32 32) spec
    else if c == b's'
    then named cursor (codes "hort") (spec_of type_int16 16) spec
    else no_type spec

-- jst_typesize: the result, and what is in `spec` then.
unfoldable pub typesize : List ℕ → TypeInfo → ℤ × TypeInfo
typesize type spec =
    let found = typesize_of type spec in
    (if ltb found.index type_max then pos 0 else negsuc 0, found)

unfoldable pub typeinfo_of : Option (List ℕ) → TypeInfo
typeinfo_of none = spec_of type_max 0
typeinfo_of (some type) = (typesize type (spec_of type_max 0)).1

-- jst_extract_typesize: `*type`, and the bits.
unfoldable pub extract_typesize : (cj : Cjson) → Option cj.Item → ℕ × ℤ
extract_typesize cj meta =
    let spec = typeinfo_of (extract_string cj meta (codes "type")) in (spec.index, spec.bits)
