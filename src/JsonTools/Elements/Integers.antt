-- ===== src/JsonTools/Elements/Integers.antt =====
-- The integer types of jst_load_element and jst_store_element in main/json_tools.c.
use otdb.Base.{
  ℕ, ◌-◌, ◌*◌, ◌^◌, ◌<◌, ◌≤◌, ◌≡◌, refl, List, ◌++◌, true, false, some, length, take, drop, arith,
}
use otdb.Base.Int.{ℤ, pos, negsuc, ◌≤ℤ◌}
use otdb.Text.{codes}
use otdb.Args.{low_bits}
use otdb.DevLink.{bytes_le}
use otdb.Cjson.{Cjson, Floats}
use otdb.JsonTools.Names.{typesize, typesize_of, int_type, starts, spec_of, type_max}
use otdb.JsonTools.Elements.{
  put, value_le, returns, bytes_of, copy_in, string_text, number_bytes, load_number, load_typed,
  load_checked, load_element, number, signed, store_integer, store_typed, store_element,
}

-- The integer types of up to 32 bits, by their names.
pub data IntType : Type 0 where
  int8 uint8 int16 uint16 int32 uint32 : IntType

abbrev pub type_name : IntType → List ℕ
type_name int8 = codes "int8_t"
type_name uint8 = codes "uint8_t"
type_name int16 = codes "int16_t"
type_name uint16 = codes "uint16_t"
type_name int32 = codes "int32_t"
type_name uint32 = codes "uint32_t"

abbrev pub index_of : IntType → ℕ
index_of int8 = 11
index_of uint8 = 12
index_of int16 = 13
index_of uint16 = 14
index_of int32 = 15
index_of uint32 = 16

abbrev pub size_in_bytes : IntType → ℕ
size_in_bytes int8 = 1
size_in_bytes uint8 = 1
size_in_bytes int16 = 2
size_in_bytes uint16 = 2
size_in_bytes int32 = 4
size_in_bytes uint32 = 4

-- The numbers of the type that an int holds.
abbrev pub lowest : IntType → ℤ
lowest int8 = negsuc 127
lowest int16 = negsuc 32767
lowest int32 = negsuc (2 ^ 31 - 1)
lowest _ = pos 0

abbrev pub highest : IntType → ℤ
highest int8 = pos 127
highest uint8 = pos 255
highest int16 = pos 32767
highest uint16 = pos 65535
highest _ = pos (2 ^ 31 - 1)

pub typesize-name :
    (k : IntType)
    → typesize (type_name k) (spec_of type_max 0)
      ≡ (pos 0, spec_of (index_of k) (size_in_bytes k * 8))
unfolding typesize typesize_of int_type starts
typesize-name int8 = refl
typesize-name uint8 = refl
typesize-name int16 = refl
typesize-name uint16 = refl
typesize-name int32 = refl
typesize-name uint32 = refl

module _ (cj : Cjson) (fl : Floats) (value : cj.Item) (mem : List ℕ)
    (is_num : cj.is_number value ≡ true) (not_text : cj.is_string value ≡ false) where
  -- The first bytes of the number, before the rest of the memory.
  abbrev loaded : ℕ → List ℕ
  loaded n = take n (bytes_le 4 (low_bits 32 (cj.valueint value)) ++ cj.padding value) ++ drop n mem

  load_number-int :
      (k : IntType) (limit : ℤ) (bitpos : ℕ)
      → size_in_bytes k ≤ length mem
      → pos (size_in_bytes k) ≤ℤ limit
      → load_typed cj fl (spec_of (index_of k) (size_in_bytes k * 8)) limit bitpos value mem
        ≡ some (loaded (size_in_bytes k), pos (size_in_bytes k))
  unfolding load_typed load_number copy_in put returns number_bytes bytes_of string_text bytes_le
  load_number-int int8 limit bitpos h l = rw (not_text, is_num) (ground (arith, h, l))
  load_number-int uint8 limit bitpos h l = rw (not_text, is_num) (ground (arith, h, l))
  load_number-int int16 limit bitpos h l = rw (not_text, is_num) (ground (arith, h, l))
  load_number-int uint16 limit bitpos h l = rw (not_text, is_num) (ground (arith, h, l))
  load_number-int int32 limit bitpos h l = rw (not_text, is_num) (ground (arith, h, l))
  load_number-int uint32 limit bitpos h l = rw (not_text, is_num) (ground (arith, h, l))

-- A number in the type's range, from its first bytes.
read_back :
    (fl : Floats) (k : IntType) (n : ℤ) (behind rest : List ℕ) (bitpos : ℕ)
    → lowest k ≤ℤ n
    → n ≤ℤ highest k
    → store_element fl
        (take (size_in_bytes k) (bytes_le 4 (low_bits 32 n) ++ behind) ++ rest)
        (index_of k)
        bitpos
        (pos (size_in_bytes k * 8))
      ≡ some (number (fl.of_int n))
unfolding store_element store_typed store_integer value_le bytes_le signed low_bits
read_back fl int8 (pos n) behind rest b l h = ground (arith, l, h)
read_back fl int8 (negsuc n) behind rest b l h = ground (arith, l, h)
read_back fl uint8 (pos n) behind rest b l h = ground (arith, l, h)
read_back fl uint8 (negsuc n) behind rest b l h = absurd (omega arith)
read_back fl int16 (pos n) behind rest b l h = ground (arith, l, h)
read_back fl int16 (negsuc n) behind rest b l h = ground (arith, l, h)
read_back fl uint16 (pos n) behind rest b l h = ground (arith, l, h)
read_back fl uint16 (negsuc n) behind rest b l h = absurd (omega arith)
read_back fl int32 (pos n) behind rest b l h = ground (arith, l, h)
read_back fl int32 (negsuc n) behind rest b l h = ground (arith, l, h)
read_back fl uint32 (pos n) behind rest b l h = ground (arith, l, h)
read_back fl uint32 (negsuc n) behind rest b l h = absurd (omega arith)

size_pos : (k : IntType) → 0 < size_in_bytes k
size_pos int8 = omega arith
size_pos uint8 = omega arith
size_pos int16 = omega arith
size_pos uint16 = omega arith
size_pos int32 = omega arith
size_pos uint32 = omega arith

loaded-drop :
    (k : IntType) (n : ℕ) (behind rest : List ℕ)
    → drop (size_in_bytes k) (take (size_in_bytes k) (bytes_le 4 n ++ behind) ++ rest) ≡ rest
unfolding bytes_le
loaded-drop int8 n behind rest = refl
loaded-drop uint8 n behind rest = refl
loaded-drop int16 n behind rest = refl
loaded-drop uint16 n behind rest = refl
loaded-drop int32 n behind rest = refl
loaded-drop uint32 n behind rest = refl

-- A number in the range of an integer type of up to 32 bits, loaded where the type's bytes are below the
-- limit and in memory: jst_load_element returns the type's size and writes no byte behind it, and
-- jst_store_element reads the same number back.
pub store-load_integer :
    (cj : Cjson) (fl : Floats) (k : IntType) (limit : ℤ) (bitpos : ℕ) (value : cj.Item)
    (mem : List ℕ)
    → cj.is_number value ≡ true
    → cj.is_string value ≡ false
    → lowest k ≤ℤ cj.valueint value
    → cj.valueint value ≤ℤ highest k
    → size_in_bytes k ≤ length mem
    → pos (size_in_bytes k) ≤ℤ limit
    → (mem1 : List ℕ) × (load_element cj fl mem limit bitpos (some (type_name k)) (some value)
        ≡ some (mem1, pos (size_in_bytes k)))
      × (store_element fl mem1 (index_of k) bitpos (pos (size_in_bytes k * 8))
          ≡ some (number (fl.of_int (cj.valueint value))))
      × (drop (size_in_bytes k) mem1 ≡ drop (size_in_bytes k) mem)
unfolding load_element load_checked
store-load_integer cj fl k limit bitpos value mem is_num not_text low high size room = (
  loaded cj fl value mem is_num not_text (size_in_bytes k),
  rw (typesize-name k) (
      ground (
        arith,
        load_number-int cj fl value mem is_num not_text k limit bitpos size room,
        size_pos k,
      )),
  read_back fl k (cj.valueint value) (cj.padding value) (drop (size_in_bytes k) mem) bitpos low
      high,
  loaded-drop k (low_bits 32 (cj.valueint value)) (cj.padding value) (drop (size_in_bytes k) mem),
)
